-- ===== src/Receiving.antt =====
-- src/receiving/pace.rs and src/receiving/drain.rs: how a Receive Location rests between receives,
-- and how long it goes on receiving once the node stops.
pub mod Pace
pub mod Drain
