-- ===== src/Engine.antt =====
-- src/engine/mod.rs
pub mod Bucket
pub mod Relaxation
pub mod Balancer
pub mod Matcher
pub mod Core
