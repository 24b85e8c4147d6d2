-- ===== src/Domain.antt =====
-- The domain layer of the backend (apps/backend/src/domain) and the answer to what it throws.
pub mod Errors
pub mod Handler
mod Tests
