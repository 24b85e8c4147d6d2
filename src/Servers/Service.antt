-- ===== src/Servers/Service.antt =====
-- The services of servers and of reverse proxies.
pub mod ServerCalls
pub mod ProxyCalls
pub mod Creation
pub mod Given
pub mod Changes
pub mod Proxies
pub mod Tests
pub mod Variables
