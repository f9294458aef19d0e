-- ===== src/StreamShare.antt =====
-- src/stream_share.rs and src/stream_share/one_read.rs: one read of a Stream for every departure of
-- it keeping up.
pub mod OneRead
pub mod Window
pub mod Shares
pub mod SharesLaws
pub mod Taking
pub mod Among
pub mod Lent
pub mod LentLaws
pub mod LentAnswers
pub mod Others
