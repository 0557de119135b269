-- ===== src/Data/Pagination.antt =====
-- klauthed-data/src/pagination: the shared types (mod.rs) and offset pages (offset.rs).
pub mod Offset
