-- ===== src/Engine.antt =====
-- crates/nzbd-engine/src: the download engine.
pub mod Failover
pub mod Backend
pub mod Queue
pub mod Owner
pub mod Pool
