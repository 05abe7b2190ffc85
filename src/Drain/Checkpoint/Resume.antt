-- ===== src/Drain/Checkpoint/Resume.antt =====
-- pkg/drain/checkpoint_resume.go: whether a checkpoint is of this drain, and whether a workload
-- that it records may be skipped.
pub mod Skips
use k8s_safed.Base.{Bool, true, false, Option, none, some, not, ◌&&◌, ◌==◌, if◌then◌else◌}
use k8s_safed.Base.Int.{pos, int_eq}
use k8s_safed.Cluster.Calls.{Context}
use k8s_safed.Cluster.Env.{Env, Result, ok, err, message}
use k8s_safed.Cluster.Files.{CheckpointWork}
use k8s_safed.Cluster.Exec.{Exec, Done, pure, in_context, ◌>>=◌}
use k8s_safed.Workload.{Workload}
use k8s_safed.Drain.Options.{Options}
use k8s_safed.Drain.Checkpoint.{Checkpoint, is_done, work_of}
use k8s_safed.Drain.Rollout.Vacate.{workload_has_pods_on_node}

unfoldable pub validate_checkpoint : Options → Checkpoint → Result Done
validate_checkpoint opts cp =
    if not (cp.node_name == "") && not (cp.node_name == opts.node_name)
    then err (message "checkpoint is for another node")
    else if not (cp.context == "")
        && (not (opts.checkpoint_context == "") && not (cp.context == opts.checkpoint_context))
    then err (message "checkpoint is for another kube context")
    else ok tt

-- The identity that the checkpoint recorded is that of the workload, as far as both are known.
unfoldable pub same_identity : CheckpointWork → Workload → Bool
same_identity meta w =
    if not (meta.uid == "") && (not (w.uid == "") && not (meta.uid == w.uid))
    then false
    else if not (int_eq meta.generation (pos 0))
        && (not (int_eq w.generation (pos 0)) && not (int_eq meta.generation w.generation))
    then false
    else true

module _ (env : Env) (opts : Options) (ctx : Context) where
  -- An entry with no identity counts only when no pod of the workload is on the node.
  unfoldable pub skip_by_identity : Workload → Option CheckpointWork → Exec Bool
  skip_by_identity w (some meta) = pure (same_identity meta w)
  skip_by_identity w none =
      in_context "validating legacy checkpoint entry" (workload_has_pods_on_node env opts ctx w)
      >>= λ has_pods. pure (not has_pods)

  unfoldable pub checkpoint_can_skip : Checkpoint → Workload → Exec Bool
  unfolding skip_by_identity
  checkpoint_can_skip cp w =
      if not (is_done cp w) then pure false else skip_by_identity w (work_of cp w)
