-- ===== src/Tests.antt =====
-- A small cluster, and the theorems at it.
pub mod Cluster
pub mod Eviction
pub mod Basics
pub mod Runs
pub mod Clearing
pub mod Resumption
pub mod Coordination
pub mod Batches
pub mod Validation
pub mod Configuration
pub mod Command
pub mod Lines
