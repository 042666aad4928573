-- ===== src/Models.antt =====
-- src/models/mod.rs: the players, the teams and the match records.
pub mod Player
pub mod Memory
pub mod Team
pub mod Match
