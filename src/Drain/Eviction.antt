-- ===== src/Drain/Eviction.antt =====
-- pkg/drain/eviction.go: the eviction of the pods that are left after the rolling restarts.
pub mod Filter
pub mod Retry
pub mod Deletion
pub mod Remaining
