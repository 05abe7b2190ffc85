-- ===== src/Drain/Rollout/DeploymentWait.antt =====
-- `waitForDeploymentRollout` of pkg/drain/rollout.go.
pub mod Observed
use k8s_safed.Base.{String, Bool, false, Option, none, some, List, ◌&&◌, ◌==◌, any, if◌then◌else◌}
use k8s_safed.Base.Int.{ℤ, pos, int_ltb, int_leb, int_eq}
use k8s_safed.Base.Maps.{get_text}
use k8s_safed.Base.Text.{append_text}
use k8s_safed.Cluster.Objects.{LabelSelector, Condition, Pod, Deployment}
use k8s_safed.Cluster.Calls.{Context, with_timeout}
use k8s_safed.Cluster.Env.{Env, Error, message, wrap}
use k8s_safed.Cluster.Errors.{is_transient}
use k8s_safed.Cluster.Exec.{Exec, Done, pure, raise, try_catch}
use k8s_safed.Cluster.Requests.{get_deployment}
use k8s_safed.Cluster.Poll.{Check, Poller}
use k8s_safed.Drain.Options.{Options, poll_interval}
use k8s_safed.Drain.Rollout.Selectors.{revision_annotation, new_replica_set_selector}
use k8s_safed.Drain.Rollout.BadPods.{find_bad_pod_state}

-- The variables that the poll's condition closes over.
pub record SelectorCache : Type 0 where
  pub revision : String
  pub selector : Option LabelSelector

abbrev pub empty_cache : SelectorCache
empty_cache = record { revision = ""; selector = none }

-- `desired := int32(1); if replicas != nil { desired = *replicas }`
abbrev pub desired_replicas : Option ℤ → ℤ
desired_replicas none = pos 1
desired_replicas (some n) = n

-- A Progressing condition that is False with the reason ProgressDeadlineExceeded.
unfoldable pub deadline_exceeded : List Condition → Bool
deadline_exceeded conditions =
    any
      (λ c.
        c.type == "Progressing" && (c.status == "False" && c.reason == "ProgressDeadlineExceeded"))
      conditions

unfoldable pub deployment_complete : Deployment → Bool
deployment_complete dep =
    let desired = desired_replicas dep.replicas in
    int_eq dep.updated_replicas desired
    && (int_eq dep.ready_replicas desired
        && (int_eq dep.available_replicas desired
            && (int_eq dep.unavailable_replicas (pos 0)
                && int_leb dep.generation dep.observed_generation)))

-- `rolloutCtx`
unfoldable pub rollout_context : Options → Context → Context
rollout_context opts ctx =
    if int_ltb (pos 0) opts.rollout_timeout then with_timeout opts.rollout_timeout ctx else ctx

module _ (env : Env) (ctx : Context) (namespace name : String) (target : ℤ) where
  -- An error that is transient leaves the decision to the next check.
  abbrev pub retry_or_raise : SelectorCache → Error → Error → Exec (SelectorCache × Bool)
  retry_or_raise cache e raised = if is_transient env e then pure (cache, false) else raise raised

  unfoldable pub stuck_pod :
      SelectorCache → Deployment → Option (String × Pod) → Exec (SelectorCache × Bool)
  stuck_pod cache dep none = pure (cache, deployment_complete dep)
  stuck_pod cache dep (some (reason, pod)) = raise (message (append_text "pod stuck in " reason))

  unfoldable pub check_deployment_pods : SelectorCache → Deployment → Exec (SelectorCache × Bool)
  unfolding stuck_pod
  check_deployment_pods cache dep =
      try_catch (find_bad_pod_state env ctx namespace cache.selector) (stuck_pod cache dep)
        (λ e. retry_or_raise cache e (wrap "checking pod states" e))

  -- A failed lookup leaves no selector in the cache, and its old revision.
  unfoldable pub refresh_selector : SelectorCache → Deployment → Exec (SelectorCache × Bool)
  refresh_selector cache dep =
      let revision = get_text revision_annotation dep.annotations in
      if revision == cache.revision
      then check_deployment_pods cache dep
      else try_catch (new_replica_set_selector env ctx dep)
          (λ selector.
            check_deployment_pods (record { revision = revision; selector = selector }) dep)
          (λ e.
            retry_or_raise (record cache { selector = none }) e
              (wrap "resolving new ReplicaSet selector" e))

  unfoldable pub observe_deployment : SelectorCache → Deployment → Exec (SelectorCache × Bool)
  observe_deployment cache dep =
      if int_ltb dep.observed_generation target
      then pure (cache, false)
      else if deadline_exceeded dep.conditions
      then raise (message "rollout stalled (ProgressDeadlineExceeded)")
      else refresh_selector cache dep

  unfoldable pub check_deployment : Check SelectorCache
  check_deployment cache =
      try_catch (get_deployment env ctx namespace name) (observe_deployment cache)
        (λ e. retry_or_raise cache e e)

module _ (env : Env) (poller : Poller) (opts : Options) where
  unfoldable pub wait_for_deployment_rollout : Context → String → String → ℤ → Exec Done
  wait_for_deployment_rollout ctx namespace name target =
      let rollout_ctx = rollout_context opts ctx in
      poller.poll SelectorCache rollout_ctx (poll_interval opts)
        (check_deployment env rollout_ctx namespace name target) empty_cache
