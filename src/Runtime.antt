-- ===== src/Runtime.antt =====
-- `Runtime` of reactifact/runtime.py: the generations of a turn. An agent's own code, the clock,
-- the policies of an application and the dispatcher are parameters.
mod Counters
mod Agents
mod Schedule
mod Checks
mod Patches
mod Outbox
mod Generation
pub mod Replay
pub mod Limits
pub mod Outcome
pub mod Delivery
pub mod Answers
pub mod Vetting
pub mod Reached
unfoldable pub use Counters.*
unfoldable pub use Agents.*
unfoldable pub use Schedule.*
unfoldable pub use Checks.*
unfoldable pub use Patches.*
unfoldable pub use Outbox.*
unfoldable pub use Generation.*
