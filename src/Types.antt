-- ===== src/Types.antt =====
-- crates/nzbd-types/src/lib.rs: the domain model that the other crates share.
pub mod Torrent
pub mod Job
pub mod Server
pub mod Health
