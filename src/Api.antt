-- ===== src/Api.antt =====
-- crates/nzbd-api: what the HTTP interface computes itself.
pub mod EventHub
pub mod EventStream
