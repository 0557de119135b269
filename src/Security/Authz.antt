-- ===== src/Security/Authz.antt =====
-- klauthed-security/src/authz: role-based and attribute-based access control.
pub mod Permission
pub mod Covers
pub mod Roles
pub mod Walk
pub mod Authorizer
pub mod Policy
pub mod Combining
