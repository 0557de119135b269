-- ===== src/Platform.antt =====
-- The crate klauthed-platform.
pub mod Jobs
pub mod Cron
pub mod Flags
pub mod Metering
pub mod Tenancy
