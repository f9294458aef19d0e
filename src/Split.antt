-- ===== src/Split.antt =====
-- src/split.rs: debatching, a Message split into a Message per record.
pub mod Defs
pub mod Laws
pub mod Outcome
