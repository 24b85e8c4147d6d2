-- ===== src/Events.antt =====
-- Domain events on their way: the bus, and the sockets that are told of changes.
pub mod Bus
pub mod Sockets
mod Tests
