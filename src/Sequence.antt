-- ===== src/Sequence.antt =====
-- src/sequence.rs and its children: the one Sequence.
pub mod Key
pub mod Point
pub mod Heads
pub mod HeadsLaws
pub mod KeyLaws
pub mod Late
pub mod LateTaken
pub mod LateLaws
