-- ===== src/Wire.antt =====
-- src/wire.rs: the C header's integers for the crates' enums.
pub mod Defs
pub mod Laws
