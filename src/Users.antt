-- ===== src/Users.antt =====
-- Users of the panel: the account data, suspension, the repository with its administrator checks,
-- the service in front of it, and the guards that admit a request.
pub mod Account
pub mod Store
pub mod Repository
pub mod Guards
pub mod Service
pub mod Routes
pub mod Memory
mod Tests
