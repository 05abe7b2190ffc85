-- ===== src/Drain.antt =====
-- pkg/drain: the safe drain of one node.
pub mod Options
pub mod Events
pub mod Node
pub mod Rollout
pub mod Checkpoint
pub mod WorkloadFilter
pub mod Runner
pub mod Preflight
pub mod Eviction
pub mod Phases
pub mod Work
pub mod Uncordon
pub mod Coordinator
pub mod Printer
pub mod DryRun
