-- ===== src/Pickup.antt =====
-- src/pickup.rs and its children, with src/held_work.rs and src/configured_subscription.rs: a node's
-- Subscriptions, what a paused one holds, and what the node picks up of it.
pub mod Configured
pub mod State
pub mod StateLaws
pub mod Form
pub mod FormLaws
pub mod Act
pub mod ActLaws
pub mod Holding
pub mod HoldingLaws
pub mod Released
pub mod Places
pub mod Reading
pub mod PlacesInv
pub mod PlacesRead
pub mod PlacesLaws
pub mod ReleasedLaws
pub mod HeldWork
pub mod HeldWorkLaws
pub mod Round
pub mod RoundLaws
pub mod RoundEnds
