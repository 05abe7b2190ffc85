-- ===== src/Drain/Rollout/DeploymentWait/Observed.antt =====
-- What a wait for a Deployment has seen when it returns without an error.
use k8s_safed.Base.{
  ◌≡◌, refl, String, Bool, true, false, Option, none, some, arith, Bool-cases, inl, inr, ◌==◌,
}
use k8s_safed.Base.Maps.{get_text}
use k8s_safed.Drain.Rollout.Selectors.{revision_annotation}
use k8s_safed.Base.Int.{ℤ, ◌≤ℤ◌, int_ltb, pos, eq_of_int_eq}
use k8s_safed.Cluster.Objects.{Pod, Deployment}
use k8s_safed.Cluster.Calls.{Context, Call, History, Request}
use k8s_safed.Cluster.Env.{Env, Error, Result, ok}
use k8s_safed.Cluster.Exec.{World, Exec}
use k8s_safed.Cluster.Exec.Meets.{
  Post-ok, Meets, Meets-if, Meets-pure, Meets-raise, Meets-try_catch, Meets-Keeps,
}
use k8s_safed.Cluster.Exec.Since.{
  Grown, same, grown, Since, later, Since-Grown, Got, ask-Meets, Outcome, Meets-Checked,
}
use k8s_safed.Cluster.Reads.{ReadClosed}
use k8s_safed.Cluster.Poll.{Poller}
use k8s_safed.Cluster.Poll.Rules.{Checked, Meets-poll}
use k8s_safed.Cluster.Errors.{is_transient}
use k8s_safed.Drain.Options.{Options, poll_interval}
use k8s_safed.Drain.Rollout.Reads.{find_bad_pod_state-Keeps, new_replica_set_selector-Keeps}
use k8s_safed.Drain.Rollout.DeploymentWait.{
  SelectorCache, empty_cache, desired_replicas, deployment_complete, deadline_exceeded,
  rollout_context, stuck_pod, check_deployment_pods, retry_or_raise, refresh_selector,
  observe_deployment, check_deployment, wait_for_deployment_rollout,
}

-- All the replicas that the Deployment asks for are updated, ready and available, none is
-- unavailable, and the controller has seen the last change of the spec.
pub record IsRolledOut (dep : Deployment) : Type 0 where
  pub updated : dep.updated_replicas ≡ desired_replicas dep.replicas
  pub ready : dep.ready_replicas ≡ desired_replicas dep.replicas
  pub available : dep.available_replicas ≡ desired_replicas dep.replicas
  pub none_missing : dep.unavailable_replicas ≡ pos 0
  pub seen : dep.generation ≤ℤ dep.observed_generation

deployment_complete-IsRolledOut :
    (dep : Deployment) → deployment_complete dep ≡ true → IsRolledOut dep
unfolding deployment_complete
deployment_complete-IsRolledOut dep h = record {
  updated = eq_of_int_eq _ _ (ground arith);
  ready = eq_of_int_eq _ _ (ground arith);
  available = eq_of_int_eq _ _ (ground arith);
  none_missing = eq_of_int_eq _ _ (ground arith);
  seen = ground arith;
}

module _ (env : Env) (ctx : Context) (namespace name : String) (target : ℤ) (before : History) where
  abbrev answer : History → Result Deployment
  answer h = env.deployment_of h ctx namespace name

  abbrev call : Call
  call = Call.request ctx (Request.get_deployment namespace name)

  -- Since `before`, the server returned the Deployment when it had observed the restart and its
  -- rollout was complete.
  pub record SawComplete (w : World) : Type 0 where
    pub dep : Deployment
    pub returned : Since answer call dep before w.calls
    pub observed : target ≤ℤ dep.observed_generation
    pub complete : IsRolledOut dep
    pub in_time : deadline_exceeded dep.conditions ≡ false

  abbrev Open : SelectorCache → World → Type 0
  Open s w = Grown before w.calls

  abbrev Failed : Error → World → Type 0
  Failed e w = Unit

  abbrev Promise : Exec (SelectorCache × Bool) → Deployment → Type 0
  Promise m dep = Meets (Got answer call before dep) (Outcome Open SawComplete Failed) Failed m

  Got-ReadClosed : (dep : Deployment) → ReadClosed (Got answer call before dep)
  Got-ReadClosed dep = record { reads = λ c r w h. later c h }

  retry-Promise :
      {dep : Deployment} (cache : SelectorCache) (e raised : Error)
      → Promise (retry_or_raise env ctx namespace name target cache e raised) dep
  retry-Promise cache e raised =
      Meets-if (is_transient env e) _ _ (λ _. Meets-pure _ (λ w h. Since-Grown h))
        (λ _. Meets-raise _ (λ w h. tt))

  after_failure :
      (cache : SelectorCache) (e raised : Error)
      → Meets
          (λ w. Grown before w.calls)
          (Outcome Open SawComplete Failed)
          Failed
          (retry_or_raise env ctx namespace name target cache e raised)
  after_failure cache e raised =
      Meets-if (is_transient env e) _ _ (λ _. Meets-pure _ (λ w h. h))
        (λ _. Meets-raise _ (λ w h. tt))

  module _ (dep : Deployment) (observed : target ≤ℤ dep.observed_generation)
      (in_time : deadline_exceeded dep.conditions ≡ false) where
    stuck_pod-Promise :
        (cache : SelectorCache) (o : Option (String × Pod))
        → Promise (stuck_pod env ctx namespace name target cache dep o) dep
    unfolding stuck_pod
    stuck_pod-Promise cache none = Meets-pure _ (λ w h.
        elim (Bool-cases (deployment_complete dep)) [
          | inl done ↦ rw done (record {
            dep = dep;
            returned = h;
            observed = observed;
            complete = deployment_complete-IsRolledOut dep done;
            in_time = in_time;
          })
          | inr more ↦ rw more (Since-Grown h)
        ])
    stuck_pod-Promise cache (some (reason, pod)) = Meets-raise _ (λ w h. tt)

    check_deployment_pods-Promise :
        (cache : SelectorCache)
        → Promise (check_deployment_pods env ctx namespace name target cache dep) dep
    unfolding check_deployment_pods
    check_deployment_pods-Promise cache =
        Meets-try_catch (λ _. Got answer call before dep) (λ _. Got answer call before dep) _ _ _
          (Meets-Keeps _
            (find_bad_pod_state-Keeps (Got-ReadClosed dep) env ctx namespace cache.selector))
          (stuck_pod-Promise cache) (λ e. retry-Promise cache e _)

    refresh_selector-Promise :
        (cache : SelectorCache)
        → Promise (refresh_selector env ctx namespace name target cache dep) dep
    unfolding refresh_selector
    refresh_selector-Promise cache =
        Meets-if (get_text revision_annotation dep.annotations == cache.revision) _ _
          (λ _. check_deployment_pods-Promise cache)
          (λ _.
            Meets-try_catch (λ _. Got answer call before dep) (λ _. Got answer call before dep) _ _
              _ (Meets-Keeps _ (new_replica_set_selector-Keeps (Got-ReadClosed dep) env ctx dep))
              (λ selector. check_deployment_pods-Promise _) (λ e. retry-Promise _ e _))

  observe_deployment-Promise :
      (cache : SelectorCache) (dep : Deployment)
      → Promise (observe_deployment env ctx namespace name target cache dep) dep
  unfolding observe_deployment
  observe_deployment-Promise cache dep =
      Meets-if (int_ltb dep.observed_generation target) _ _
        (λ old. Meets-pure _ (λ w h. Since-Grown h))
        (λ observed.
          Meets-if (deadline_exceeded dep.conditions) _ _ (λ _. Meets-raise _ (λ w h. tt))
            (λ in_time. refresh_selector-Promise dep (ground arith) in_time cache))

  check_deployment-Checked :
      (cache : SelectorCache) (w : World)
      → Grown before w.calls
      → Checked Open SawComplete Failed (check_deployment env ctx namespace name target cache w)
  unfolding check_deployment
  check_deployment-Checked cache w =
      Meets-Checked Open SawComplete Failed (check_deployment env ctx namespace name target) cache w
        (Meets-try_catch (Got answer call before) (λ _ w. Grown before w.calls) _ _ _
          (ask-Meets answer call before) (observe_deployment-Promise cache)
          (λ e. after_failure cache e e))

-- When the wait for the rollout of a Deployment returns without an error, then since it began the
-- server has returned that Deployment at a state where its controller had observed the target
-- generation, all replicas were updated, ready and available, and no progress deadline was
-- exceeded.
pub wait_for_deployment_rollout_complete :
    (env : Env) (poller : Poller) (opts : Options) (ctx : Context) (namespace name : String)
    (target : ℤ) (w w' : World)
    → wait_for_deployment_rollout env poller opts ctx namespace name target w ≡ (ok tt, w')
    → SawComplete env (rollout_context opts ctx) namespace name target w.calls w'
unfolding wait_for_deployment_rollout
wait_for_deployment_rollout_complete env poller opts ctx namespace name target w w' returned =
    let c = rollout_context opts ctx in
    Post-ok (λ _. SawComplete env c namespace name target w.calls) (λ _ _. Unit) returned
      ((Meets-poll (poll_interval opts) (check_deployment env c namespace name target)
          (λ _ u. Grown w.calls u.calls) (SawComplete env c namespace name target w.calls)
          (λ _ _. Unit) (check_deployment-Checked env c namespace name target w.calls)
          (λ s u g. grown _ g) (λ s u e g. tt) poller c empty_cache).at
        w (same refl))
