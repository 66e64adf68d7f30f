-- ===== src/CommitLog.antt =====
-- reactifact/commit_log.py: the chain of applied commits, its two indices, and the replay of a
-- state from it. The proofs are in the modules below.
mod Index
mod Defs
mod Replay
mod Rewind
pub mod Lookup
pub mod Chain
pub mod Replayed
pub mod Compacted
pub mod Versions
unfoldable pub use Index.*
unfoldable pub use Defs.*
unfoldable pub use Replay.*
unfoldable pub use Rewind.*
