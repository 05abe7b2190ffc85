-- ===== src/Drain/Checkpoint/Reads.antt =====
-- What only reads of the checkpoint and of the resumption from it.
use k8s_safed.Base.{Option, none, some, String}
use k8s_safed.Cluster.Calls.{Context}
use k8s_safed.Cluster.Env.{Env}
use k8s_safed.Cluster.Files.{Content, CheckpointWork, document, garbled}
use k8s_safed.Cluster.Exec.{World}
use k8s_safed.Cluster.Exec.Keeps.{Keeps, keeps_rules}
use k8s_safed.Cluster.Reads.{ReadClosed, read_file-Keeps}
use k8s_safed.Workload.{Workload}
use k8s_safed.Drain.Options.{Options}
use k8s_safed.Drain.Checkpoint.{Checkpoint}
use k8s_safed.Drain.Checkpoint.Store.{decode, load_checkpoint}
use k8s_safed.Drain.Checkpoint.Resume.{skip_by_identity, checkpoint_can_skip}
use k8s_safed.Drain.Rollout.Reads.{workload_has_pods_on_node-Keeps}

module _ {P : World → Type 0} (closed : ReadClosed P) (env : Env) where
  decode-Keeps : (c : Content) → Keeps P (decode c)
  unfolding decode
  decode-Keeps (document doc) = search keeps_rules
  decode-Keeps garbled = search keeps_rules

  pub load_checkpoint-Keeps : (path : String) → Keeps P (load_checkpoint env path)
  unfolding load_checkpoint
  load_checkpoint-Keeps path = search (keeps_rules, decode-Keeps, read_file-Keeps closed env)

  module _ (opts : Options) (ctx : Context) where
    skip_by_identity-Keeps :
        (w : Workload) (m : Option CheckpointWork) → Keeps P (skip_by_identity env opts ctx w m)
    unfolding skip_by_identity
    skip_by_identity-Keeps w none = search (keeps_rules, workload_has_pods_on_node-Keeps closed env)
    skip_by_identity-Keeps w (some meta) = search keeps_rules

    pub checkpoint_can_skip-Keeps :
        (cp : Checkpoint) (w : Workload) → Keeps P (checkpoint_can_skip env opts ctx cp w)
    unfolding checkpoint_can_skip
    checkpoint_can_skip-Keeps cp w = search (keeps_rules, skip_by_identity-Keeps)
