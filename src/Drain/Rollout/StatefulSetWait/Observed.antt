-- ===== src/Drain/Rollout/StatefulSetWait/Observed.antt =====
-- What a wait for a StatefulSet has seen when it returns without an error.
use k8s_safed.Base.{◌≢◌, eq_iff}
use k8s_safed.Base.{◌≡◌, refl, String, Bool, true, Option, none, some, arith, Bool-cases, inl, inr}
use k8s_safed.Base.Int.{ℤ, ◌≤ℤ◌, int_ltb, eq_of_int_eq}
use k8s_safed.Cluster.Objects.{Pod, StatefulSet}
use k8s_safed.Cluster.Calls.{Context, Call, History, Request}
use k8s_safed.Cluster.Env.{Env, Error, Result, ok}
use k8s_safed.Cluster.Exec.{World, Exec}
use k8s_safed.Cluster.Exec.Meets.{
  Post-ok, Meets, Meets-if, Meets-pure, Meets-raise, Meets-try_catch, Meets-Keeps,
}
use k8s_safed.Cluster.Exec.Since.{
  Grown, same, grown, Since, later, Since-Grown, Got, ask-Meets, Outcome, Meets-Checked,
}
use k8s_safed.Cluster.Reads.{ReadClosed}
use k8s_safed.Cluster.Poll.{Poller}
use k8s_safed.Cluster.Poll.Rules.{Checked, Meets-poll}
use k8s_safed.Cluster.Errors.{is_transient}
use k8s_safed.Drain.Options.{Options, poll_interval}
use k8s_safed.Drain.Rollout.Reads.{find_bad_pod_state-Keeps}
use k8s_safed.Drain.Rollout.DeploymentWait.{
  SelectorCache, empty_cache, desired_replicas, rollout_context,
}
use k8s_safed.Drain.Rollout.StatefulSetWait.{
  stateful_set_complete, stuck_pod, check_stateful_set_pods, retry_or_raise, refresh_revision,
  observe_stateful_set, check_stateful_set, wait_for_stateful_set_rollout,
}

-- The update revision is known and is the current one, and all the replicas that the StatefulSet
-- asks for are updated, current and ready.
pub record IsSettled (sts : StatefulSet) : Type 0 where
  pub known : sts.update_revision ≢ ""
  pub promoted : sts.update_revision ≡ sts.current_revision
  pub updated : sts.updated_replicas ≡ desired_replicas sts.replicas
  pub current : sts.current_replicas ≡ desired_replicas sts.replicas
  pub ready : sts.ready_replicas ≡ desired_replicas sts.replicas

stateful_set_complete-IsSettled :
    (sts : StatefulSet) → stateful_set_complete sts ≡ true → IsSettled sts
unfolding stateful_set_complete
stateful_set_complete-IsSettled sts h = record {
  known = λ e. ground (arith, eq_iff sts.update_revision "");
  promoted = (eq_iff _ _).0 (ground arith);
  updated = eq_of_int_eq _ _ (ground arith);
  current = eq_of_int_eq _ _ (ground arith);
  ready = eq_of_int_eq _ _ (ground arith);
}

module _ (env : Env) (ctx : Context) (namespace name : String) (target : ℤ) (before : History) where
  abbrev answer : History → Result StatefulSet
  answer h = env.stateful_set_of h ctx namespace name

  abbrev call : Call
  call = Call.request ctx (Request.get_stateful_set namespace name)

  -- Since `before`, the server returned the StatefulSet when it had observed the restart and its
  -- rollout was complete.
  pub record SawSettled (w : World) : Type 0 where
    pub sts : StatefulSet
    pub returned : Since answer call sts before w.calls
    pub observed : target ≤ℤ sts.observed_generation
    pub complete : IsSettled sts

  abbrev Open : SelectorCache → World → Type 0
  Open s w = Grown before w.calls

  abbrev Failed : Error → World → Type 0
  Failed e w = Unit

  abbrev Promise : Exec (SelectorCache × Bool) → StatefulSet → Type 0
  Promise m sts = Meets (Got answer call before sts) (Outcome Open SawSettled Failed) Failed m

  Got-ReadClosed : (sts : StatefulSet) → ReadClosed (Got answer call before sts)
  Got-ReadClosed sts = record { reads = λ c r w h. later c h }

  retry-Promise :
      {sts : StatefulSet} (cache : SelectorCache) (e raised : Error)
      → Promise (retry_or_raise env ctx namespace name target cache e raised) sts
  retry-Promise cache e raised =
      Meets-if (is_transient env e) _ _ (λ _. Meets-pure _ (λ w h. Since-Grown h))
        (λ _. Meets-raise _ (λ w h. tt))

  after_failure :
      (cache : SelectorCache) (e raised : Error)
      → Meets
          (λ w. Grown before w.calls)
          (Outcome Open SawSettled Failed)
          Failed
          (retry_or_raise env ctx namespace name target cache e raised)
  after_failure cache e raised =
      Meets-if (is_transient env e) _ _ (λ _. Meets-pure _ (λ w h. h))
        (λ _. Meets-raise _ (λ w h. tt))

  module _ (sts : StatefulSet) (observed : target ≤ℤ sts.observed_generation) where
    stuck_pod-Promise :
        (cache : SelectorCache) (o : Option (String × Pod))
        → Promise (stuck_pod env ctx namespace name target cache sts o) sts
    unfolding stuck_pod
    stuck_pod-Promise cache none = Meets-pure _ (λ w h.
        elim (Bool-cases (stateful_set_complete sts)) [
          | inl done ↦ rw done (record {
            sts = sts;
            returned = h;
            observed = observed;
            complete = stateful_set_complete-IsSettled sts done;
          })
          | inr more ↦ rw more (Since-Grown h)
        ])
    stuck_pod-Promise cache (some (reason, pod)) = Meets-raise _ (λ w h. tt)

    check_stateful_set_pods-Promise :
        (cache : SelectorCache)
        → Promise (check_stateful_set_pods env ctx namespace name target cache sts) sts
    unfolding check_stateful_set_pods
    check_stateful_set_pods-Promise cache =
        Meets-try_catch (λ _. Got answer call before sts) (λ _. Got answer call before sts) _ _ _
          (Meets-Keeps _
            (find_bad_pod_state-Keeps (Got-ReadClosed sts) env ctx namespace cache.selector))
          (stuck_pod-Promise cache) (λ e. retry-Promise cache e _)

  observe_stateful_set-Promise :
      (cache : SelectorCache) (sts : StatefulSet)
      → Promise (observe_stateful_set env ctx namespace name target cache sts) sts
  unfolding observe_stateful_set
  observe_stateful_set-Promise cache sts =
      Meets-if (int_ltb sts.observed_generation target) _ _
        (λ old. Meets-pure _ (λ w h. Since-Grown h))
        (λ observed.
          check_stateful_set_pods-Promise sts (ground arith) (refresh_revision cache sts))

  check_stateful_set-Checked :
      (cache : SelectorCache) (w : World)
      → Grown before w.calls
      → Checked Open SawSettled Failed (check_stateful_set env ctx namespace name target cache w)
  unfolding check_stateful_set
  check_stateful_set-Checked cache w =
      Meets-Checked Open SawSettled Failed (check_stateful_set env ctx namespace name target) cache
        w
        (Meets-try_catch (Got answer call before) (λ _ w. Grown before w.calls) _ _ _
          (ask-Meets answer call before) (observe_stateful_set-Promise cache)
          (λ e. after_failure cache e e))

-- When the wait for the rollout of a StatefulSet returns without an error, then since it began the
-- server has returned that StatefulSet at a state where its controller had observed the target
-- generation, the update revision was set and the current one, and all replicas were updated,
-- current and ready.
pub wait_for_stateful_set_rollout_complete :
    (env : Env) (poller : Poller) (opts : Options) (ctx : Context) (namespace name : String)
    (target : ℤ) (w w' : World)
    → wait_for_stateful_set_rollout env poller opts ctx namespace name target w ≡ (ok tt, w')
    → SawSettled env (rollout_context opts ctx) namespace name target w.calls w'
unfolding wait_for_stateful_set_rollout
wait_for_stateful_set_rollout_complete env poller opts ctx namespace name target w w' returned =
    let c = rollout_context opts ctx in
    Post-ok (λ _. SawSettled env c namespace name target w.calls) (λ _ _. Unit) returned
      ((Meets-poll (poll_interval opts) (check_stateful_set env c namespace name target)
          (λ _ u. Grown w.calls u.calls) (SawSettled env c namespace name target w.calls)
          (λ _ _. Unit) (check_stateful_set-Checked env c namespace name target w.calls)
          (λ s u g. grown _ g) (λ s u e g. tt) poller c empty_cache).at
        w (same refl))
