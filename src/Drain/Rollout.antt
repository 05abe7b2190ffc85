-- ===== src/Drain/Rollout.antt =====
-- pkg/drain/rollout.go: the rolling restart of a workload, and the wait for its end.
pub mod Selectors
pub mod BadPods
pub mod DeploymentWait
pub mod StatefulSetWait
pub mod Vacate
pub mod Retry
pub mod Restart
pub mod Reads
pub mod Checks
