-- ===== src/Drain/Rollout/StatefulSetWait.antt =====
-- `waitForStatefulSetRollout` of pkg/drain/rollout.go.
pub mod Observed
use k8s_safed.Base.{String, Bool, false, Option, none, some, not, ◌&&◌, ◌==◌, if◌then◌else◌}
use k8s_safed.Base.Int.{ℤ, int_ltb, int_eq}
use k8s_safed.Base.Text.{append_text}
use k8s_safed.Cluster.Objects.{Pod, StatefulSet}
use k8s_safed.Cluster.Calls.{Context}
use k8s_safed.Cluster.Env.{Env, Error, message, wrap}
use k8s_safed.Cluster.Errors.{is_transient}
use k8s_safed.Cluster.Exec.{Exec, Done, pure, raise, try_catch}
use k8s_safed.Cluster.Requests.{get_stateful_set}
use k8s_safed.Cluster.Poll.{Check, Poller}
use k8s_safed.Drain.Options.{Options, poll_interval}
use k8s_safed.Drain.Rollout.Selectors.{new_revision_selector}
use k8s_safed.Drain.Rollout.BadPods.{find_bad_pod_state}
use k8s_safed.Drain.Rollout.DeploymentWait.{
  SelectorCache, empty_cache, desired_replicas, rollout_context,
}

unfoldable pub stateful_set_complete : StatefulSet → Bool
stateful_set_complete sts =
    let desired = desired_replicas sts.replicas in
    not (sts.update_revision == "")
    && (sts.update_revision == sts.current_revision
        && (int_eq sts.updated_replicas desired
            && (int_eq sts.current_replicas desired && int_eq sts.ready_replicas desired)))

-- The cache of the revision selector, brought up to date.
unfoldable pub refresh_revision : SelectorCache → StatefulSet → SelectorCache
refresh_revision cache sts = if sts.update_revision == cache.revision then cache else record {
  revision = sts.update_revision;
  selector = new_revision_selector sts.selector sts.update_revision;
}

module _ (env : Env) (ctx : Context) (namespace name : String) (target : ℤ) where
  abbrev pub retry_or_raise : SelectorCache → Error → Error → Exec (SelectorCache × Bool)
  retry_or_raise cache e raised = if is_transient env e then pure (cache, false) else raise raised

  unfoldable pub stuck_pod :
      SelectorCache → StatefulSet → Option (String × Pod) → Exec (SelectorCache × Bool)
  stuck_pod cache sts none = pure (cache, stateful_set_complete sts)
  stuck_pod cache sts (some (reason, pod)) = raise (message (append_text "pod stuck in " reason))

  unfoldable pub check_stateful_set_pods : SelectorCache → StatefulSet → Exec (SelectorCache × Bool)
  unfolding stuck_pod
  check_stateful_set_pods cache sts =
      try_catch (find_bad_pod_state env ctx namespace cache.selector) (stuck_pod cache sts)
        (λ e. retry_or_raise cache e (wrap "checking pod states" e))

  unfoldable pub observe_stateful_set : SelectorCache → StatefulSet → Exec (SelectorCache × Bool)
  observe_stateful_set cache sts =
      if int_ltb sts.observed_generation target
      then pure (cache, false)
      else check_stateful_set_pods (refresh_revision cache sts) sts

  unfoldable pub check_stateful_set : Check SelectorCache
  check_stateful_set cache =
      try_catch (get_stateful_set env ctx namespace name) (observe_stateful_set cache)
        (λ e. retry_or_raise cache e e)

module _ (env : Env) (poller : Poller) (opts : Options) where
  unfoldable pub wait_for_stateful_set_rollout : Context → String → String → ℤ → Exec Done
  wait_for_stateful_set_rollout ctx namespace name target =
      let rollout_ctx = rollout_context opts ctx in
      poller.poll SelectorCache rollout_ctx (poll_interval opts)
        (check_stateful_set env rollout_ctx namespace name target) empty_cache
