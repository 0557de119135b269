-- ===== src/Web.antt =====
-- klauthed-web: what the web layer adds to the components of the other crates.
pub mod OAuth
pub mod Resilience
pub mod Cors
