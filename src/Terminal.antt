-- ===== src/Terminal.antt =====
-- The terminal of a pod: a client's socket on one side, Kubernetes on the other
-- (apps/backend/src/routes/terminal.ts).
pub mod Opening
pub mod Traffic
pub mod History
mod Tests
