-- ===== src/Persistence.antt =====
-- Sessions on a key-value store: reactifact/session.py, _persistence.py, and the interfaces and the
-- in-memory store of checkpoints.py. Nobody else writes to the store between the steps of one save.
pub mod Snapshots
pub mod Extensions
pub mod Commits
pub mod Trees
pub mod Appended
pub mod Isolation
mod Backends
mod Save
mod Load
mod Sessions
pub mod Branches
unfoldable pub use Backends.*
unfoldable pub use Save.*
unfoldable pub use Load.*
unfoldable pub use Sessions.*
