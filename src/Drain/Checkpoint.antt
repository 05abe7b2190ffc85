-- ===== src/Drain/Checkpoint.antt =====
-- pkg/drain/checkpoint.go: the record of the workloads that are done, and its file.
pub mod Path
pub mod Store
pub mod Resume
pub mod Reads
use k8s_safed.Base.{String, Bool, true, List, [], Option}
use k8s_safed.Base.Maps.{Map, lookup, insert, get_flag}
use k8s_safed.Cluster.Objects.{Time}
use k8s_safed.Cluster.Files.{CheckpointWork}
use k8s_safed.Workload.{Workload, workload_key, kind_text}

-- Both maps are there: `LoadCheckpoint` and `newCheckpoint` make them, and an empty one stands
-- for a nil one.
pub record Checkpoint : Type 0 where
  pub node_name : String
  pub context : String
  pub completed : Map Bool
  pub workloads : Map CheckpointWork

abbrev pub new_checkpoint : Checkpoint
new_checkpoint = record { node_name = ""; context = ""; completed = []; workloads = [] }

unfoldable pub checkpoint_work : Workload → Time → CheckpointWork
checkpoint_work w completed_at = record {
  kind = kind_text w.kind;
  namespace = w.namespace;
  name = w.name;
  uid = w.uid;
  generation = w.generation;
  completed_at = completed_at;
}

unfoldable pub mark_done_at : Checkpoint → Workload → Time → Checkpoint
mark_done_at cp w completed_at = record cp {
  completed = insert (workload_key w) true cp.completed;
  workloads = insert (workload_key w) (checkpoint_work w completed_at) cp.workloads;
}

unfoldable pub is_done : Checkpoint → Workload → Bool
is_done cp w = get_flag (workload_key w) cp.completed

unfoldable pub work_of : Checkpoint → Workload → Option CheckpointWork
work_of cp w = lookup (workload_key w) cp.workloads
