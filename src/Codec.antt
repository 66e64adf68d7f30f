-- ===== src/Codec.antt =====
-- The dictionaries to which the core's objects are written and from which they are read back: the
-- `to_dict` and `from_dict` of reactifact/operations.py, commit.py, artifacts.py, events.py,
-- relations.py, commit_log.py and context.py. Timestamps and the memoised dictionaries are not
-- modelled.
mod Schemas
mod Operations
mod Commits
mod Artifacts
mod Logs
mod Contexts
pub mod Objects
pub mod Roundtrip
pub mod Branches
unfoldable pub use Schemas.*
unfoldable pub use Operations.*
unfoldable pub use Commits.*
unfoldable pub use Artifacts.*
unfoldable pub use Logs.*
unfoldable pub use Contexts.*
