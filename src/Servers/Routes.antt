-- ===== src/Servers/Routes.antt =====
-- The routes of servers and of reverse proxies.
pub mod Admission
pub mod ServerRoutes
pub mod ProxyRoutes
pub mod Tests
pub mod Access
pub mod ProxyAccess
pub mod Actions
pub mod Restarts
mod RestartTests
pub mod PluginRoutes
pub mod PluginAccess
