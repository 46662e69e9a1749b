-- ===== src/Model.antt =====
-- internal/model: the identities and the domain entities that every other package shares.
pub mod Failure
pub mod Capability
pub mod Access
pub mod Route
pub mod Snapshot
pub mod Identity
