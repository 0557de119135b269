-- ===== src/Security.antt =====
-- The crate klauthed-security.
pub mod Client
pub mod Claims
pub mod Error
pub mod Compare
pub mod Authz
pub mod RefreshToken
pub mod AuthCode
pub mod Session
pub mod Revocation
pub mod Recovery
