-- ===== src/Cluster.antt =====
-- crates/nzbd-cluster: work that is shared among the nodes of a cluster.
pub mod Range
pub mod Election
pub mod Control
