-- ===== src/Tests.antt =====
-- Concrete runs: each theorem about the program applied where its hypotheses hold.
mod Data
mod Logs
mod Stores
mod Turns
mod Limits
mod Merges
mod Naming
mod Codecs
mod Registries
mod Sessions
mod Consumes
mod Evidence
mod Calls
mod Policing
