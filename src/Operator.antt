-- ===== src/Operator.antt =====
-- The synchronization of the database with the custom resources of the operator.
pub mod Names
pub mod Cluster
pub mod Specs
pub mod Sync
pub mod Handlers
pub mod Memory
mod Tests
