-- ===== src/I18n.antt =====
-- The crate klauthed-i18n.
pub mod Locale
pub mod Catalog
pub mod Format
pub mod Messages
