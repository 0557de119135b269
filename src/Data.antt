-- ===== src/Data.antt =====
-- The crate klauthed-data.
pub mod Locks
pub mod Idempotency
pub mod RateLimit
pub mod Saga
pub mod Outbox
pub mod Pagination
