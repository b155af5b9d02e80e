-- ===== src/Codec.antt =====
-- The wire formats of src/codec.
pub mod Bytes
pub mod Qcmp
