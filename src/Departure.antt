-- ===== src/Departure.antt =====
-- src/departure.rs: what a Host Service does with a Message that is going somewhere.
pub mod Defs
pub mod Pass
pub mod Passes
