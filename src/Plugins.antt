-- ===== src/Plugins.antt =====
-- The registry of plugins: what the two providers offer, the artifacts that are kept, and the
-- plugins that are installed on servers.
pub mod Entities
pub mod Providers
pub mod Versions
pub mod Store
pub mod Registry
pub mod Artifacts
pub mod Files
pub mod Routes
pub mod Service
pub mod Memory
pub mod Tests
