-- ===== src/Cluster.antt =====
-- The coordination of the nodes (src/distributed-lock/).
pub mod Lease
pub mod LeaseService
pub mod AdvisoryLock
pub mod Operations
pub mod Heartbeat
