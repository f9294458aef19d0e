-- ===== src/Pool.antt =====
-- src/pool.rs: a dynamic, bounded pool of threads.
pub mod Defs
pub mod Laws
