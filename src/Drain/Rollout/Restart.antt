-- ===== src/Drain/Rollout/Restart.antt =====
-- `rollingRestart`, `restartDeployment` and `restartStatefulSet` of pkg/drain/rollout.go, with
-- `WorkloadCoordinator.Do` of pkg/drain/coordinator.go as one drainer sees it: the lock only delays
-- it, and other drainers may have restarted the workload meanwhile.
pub mod Rolled
pub mod Finished
use k8s_safed.Base.{
  String, Bool, true, false, Option, none, some, ◌∷◌, ◌||◌, ◌==◌, any, if◌then◌else◌,
}
use k8s_safed.Base.Int.{ℤ}
use k8s_safed.Cluster.Calls.{Context}
use k8s_safed.Cluster.Env.{Env, Error, message, ok}
use k8s_safed.Cluster.Exec.{Exec, Done, pure, raise, gets, in_context, ◌>>=◌, ◌>>◌}
use k8s_safed.Cluster.Requests.{now, context_error, patch_deployment, patch_stateful_set}
use k8s_safed.Cluster.Poll.{Poller}
use k8s_safed.Workload.{Kind, deployment, stateful_set, other, Workload, workload_key}
use k8s_safed.Drain.Options.{Options}
use k8s_safed.Drain.Events.{workload_event}
use k8s_safed.Drain.Rollout.DeploymentWait.{wait_for_deployment_rollout}
use k8s_safed.Drain.Rollout.StatefulSetWait.{wait_for_stateful_set_rollout}
use k8s_safed.Drain.Rollout.Vacate.{wait_for_pods_off_node}

module _ (env : Env) where
  -- The generation of the patched object.
  unfoldable pub restart_deployment : Context → String → String → Exec ℤ
  restart_deployment ctx namespace name = do
    time ← now env
    updated ← in_context "patching Deployment" (patch_deployment env ctx namespace name time)
    pure updated.generation

  unfoldable pub restart_stateful_set : Context → String → String → Exec ℤ
  restart_stateful_set ctx namespace name = do
    time ← now env
    updated ← in_context "patching StatefulSet" (patch_stateful_set env ctx namespace name time)
    pure updated.generation

  -- `_, alreadyDone := c.done[key]`
  unfoldable pub already_done : String → Exec Bool
  already_done key =
      gets λ w. any (λ k. k == key) w.restarted || env.restarted_elsewhere w.calls key

  -- `c.done[key] = struct{}{}`
  unfoldable pub mark_restarted : String → Exec Done
  mark_restarted key w = (ok tt, record w { restarted = key ∷ w.restarted })

  unfoldable pub unless_done : Exec Done → String → Bool → Exec Done
  unless_done action key true = pure tt
  unless_done action key false = action >> mark_restarted key

  unfoldable pub unless_ended : Exec Done → String → Option Error → Exec Done
  unfolding unless_done
  unless_ended action key (some e) = raise e
  unless_ended action key none = already_done key >>= unless_done action key

  -- A nil coordinator runs the action only.
  unfoldable pub coordinate : Bool → Context → Workload → Exec Done → Exec Done
  unfolding unless_ended
  coordinate false ctx w action = action
  coordinate true ctx w action = context_error env ctx >>= unless_ended action (workload_key w)

module _ (env : Env) (poller : Poller) (opts : Options) where
  -- The `switch` on the kind.
  unfoldable pub restart_and_wait : Kind → Context → Workload → Exec Done
  restart_and_wait deployment ctx w =
      restart_deployment env ctx w.namespace w.name >>= λ generation.
      in_context "deployment rollout failed"
        (wait_for_deployment_rollout env poller opts ctx w.namespace w.name generation)
  restart_and_wait stateful_set ctx w =
      restart_stateful_set env ctx w.namespace w.name >>= λ generation.
      in_context "StatefulSet rollout failed"
        (wait_for_stateful_set_rollout env poller opts ctx w.namespace w.name generation)
  restart_and_wait (other k) ctx w = raise (message "unsupported workload kind")

  -- The function that is handed to the coordinator.
  unfoldable pub trigger_restart : Context → Workload → Exec Done
  trigger_restart ctx w =
      workload_event env opts ctx w "RollingRestartTriggered" "Normal"
      >> restart_and_wait w.kind ctx w

  unfoldable pub rolling_restart : Context → Workload → Exec Done
  rolling_restart ctx w =
      if opts.dry_run
      then pure tt
      else coordinate env opts.coordinated ctx w (trigger_restart ctx w)
        >> in_context "pods did not leave node" (wait_for_pods_off_node env poller opts ctx w)
        >> workload_event env opts ctx w "RollingRestartComplete" "Normal"
