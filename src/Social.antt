-- ===== src/Social.antt =====
-- src/social_api.rs and src/blocks.rs: friendships, blocks, and the calls that they gate.
pub mod Blocks
pub mod State
pub mod Friends
pub mod Log
pub mod Voice
