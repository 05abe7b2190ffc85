-- ===== src/Drain/Runner/Resumed.antt =====
-- The loop of `runWorkloads` over a checkpoint: the workloads that it does not let skip.
use k8s_safed.Base.{List, [], ◌∷◌, if◌then◌else◌}
use k8s_safed.Cluster.Calls.{Context}
use k8s_safed.Cluster.Env.{Env}
use k8s_safed.Cluster.Exec.{Exec, pure, ◌>>=◌}
use k8s_safed.Workload.{Workload}
use k8s_safed.Drain.Options.{Options}
use k8s_safed.Drain.Checkpoint.{Checkpoint}
use k8s_safed.Drain.Checkpoint.Resume.{checkpoint_can_skip}

module _ (env : Env) (opts : Options) (ctx : Context) (cp : Checkpoint) where
  unfoldable pub remaining_workloads : List Workload → Exec (List Workload)
  remaining_workloads [] = pure []
  remaining_workloads (w ∷ ws) = checkpoint_can_skip env opts ctx cp w >>= λ skip.
      remaining_workloads ws >>= λ remaining. pure (if skip then remaining else w ∷ remaining)
