-- ===== src/Cluster.antt =====
-- src/cluster: members, gossip metadata and the hash ring.
pub mod Types
pub mod Delegate
pub mod Membership
pub mod Printer
pub mod Ring
