-- ===== src/Servers.antt =====
-- Servers and reverse proxies: their data, the table that keeps them with their environment
-- variables, the repositories and the services.
pub mod Entities
pub mod Inputs
pub mod Store
pub mod Repository
pub mod Tests
pub mod Memory
pub mod PluginKeys
pub mod Crud
pub mod Service
pub mod Routes
