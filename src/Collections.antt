-- ===== src/Collections.antt =====
-- The collections of src/collections.
pub mod Ttl
