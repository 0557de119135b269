-- ===== src/Discovery.antt =====
-- The crate klauthed-discovery: instances, the in-memory registry and the round-robin picker.
pub mod Instance
pub mod Registry
pub mod Picker
