-- ===== src/Servers/Repository.antt =====
-- The repositories of servers and of reverse proxies. `Rows` has what the two classes write alike.
pub mod Rows
pub mod ApiKeys
pub mod ServerRows
pub mod ProxyRows
pub mod Writes
