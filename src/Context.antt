-- ===== src/Context.antt =====
-- `Context` of reactifact/context.py: the artifact store with its event queue, its commit log and
-- its two incremental indices. The definitions stand in the modules whose names are passed on,
-- the proofs in the others.
mod State
mod Store
mod Query
mod Inbox
mod History
mod Rollback
pub mod TypeIndex
pub mod Listing
pub mod Staleness
pub mod Soundness
pub mod Rebuilt
pub mod Rewound
pub mod Trimmed
pub mod Applied
pub mod Reachable
pub mod Checkout
pub mod Diffs
pub mod Queue
unfoldable pub use State.*
unfoldable pub use Store.*
unfoldable pub use Query.*
unfoldable pub use Inbox.*
unfoldable pub use History.*
unfoldable pub use Rollback.*
