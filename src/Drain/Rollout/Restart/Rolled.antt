-- ===== src/Drain/Rollout/Restart/Rolled.antt =====
-- What the restart of a workload has seen before the wait for its pods.
use k8s_safed.Base.{
  ◌≡◌, ◌⊎◌, inl, inr, ap, any, ◌||◌, ◌==◌, refl, sym, subst, Bool, true, false, Option, none, some,
}
use k8s_safed.Base.Int.{ℤ}
use k8s_safed.Cluster.Objects.{Time, Deployment, StatefulSet}
use k8s_safed.Cluster.Calls.{Context, Call, Request}
use k8s_safed.Cluster.Env.{Env, Error, Result, ok, err}
use k8s_safed.Cluster.Exec.{World, Exec, Done, gets}
use k8s_safed.Cluster.Exec.Meets.{Post, Meets, Meets-pure, Meets-raise, Meets-bind}
use k8s_safed.Cluster.Exec.Meets.More.{Meets-else, Meets-mono, Meets-in_context}
use k8s_safed.Cluster.Exec.Since.{Grown, same, grown, Since, ask-Meets}
use k8s_safed.Cluster.Poll.{Poller}
use k8s_safed.Workload.{Workload, Kind, deployment, stateful_set, other, workload_key}
use k8s_safed.Drain.Options.{Options}
use k8s_safed.Drain.Work.{WorkClosed}
use k8s_safed.Drain.Work.Restarts.{workload_event-Keeps}
use k8s_safed.Drain.Rollout.DeploymentWait.{rollout_context, wait_for_deployment_rollout}
use k8s_safed.Drain.Rollout.StatefulSetWait.{wait_for_stateful_set_rollout}
use k8s_safed.Drain.Rollout.DeploymentWait.Observed.{
  SawComplete, wait_for_deployment_rollout_complete,
}
use k8s_safed.Drain.Rollout.StatefulSetWait.Observed.{
  SawSettled, wait_for_stateful_set_rollout_complete,
}
use k8s_safed.Drain.Rollout.Restart.{
  restart_deployment, restart_stateful_set, already_done, mark_restarted, unless_done, unless_ended,
  coordinate, restart_and_wait, trigger_restart,
}

-- The coordinator has recorded the workload as restarted, at this world.
abbrev pub is_recorded : Env → Workload → World → Bool
is_recorded env wl w =
    any (λ k. k == workload_key wl) w.restarted || env.restarted_elsewhere w.calls (workload_key wl)

module _ (env : Env) (opts : Options) (ctx : Context) (wl : Workload) (start : World) where
  -- Since `start`, the workload was patched, and the wait for the generation of the patched object
  -- has seen that rollout complete.
  pub data Patched (end : World) : Type 0 where
    deployment_rolled :
        wl.kind ≡ deployment
        → (time : Time) (dep : Deployment) (patched : World)
        → Since
            (λ h. env.patched_deployment h ctx wl.namespace wl.name time)
            (Call.request ctx (Request.patch_deployment wl.namespace wl.name time))
            dep
            start.calls
            patched.calls
        → SawComplete env
            (rollout_context opts ctx)
            wl.namespace
            wl.name
            dep.generation
            patched.calls
            end
        → Patched end
    stateful_set_rolled :
        wl.kind ≡ stateful_set
        → (time : Time) (sts : StatefulSet) (patched : World)
        → Since
            (λ h. env.patched_stateful_set h ctx wl.namespace wl.name time)
            (Call.request ctx (Request.patch_stateful_set wl.namespace wl.name time))
            sts
            start.calls
            patched.calls
        → SawSettled env
            (rollout_context opts ctx)
            wl.namespace
            wl.name
            sts.generation
            patched.calls
            end
        → Patched end

  -- The workload was patched, or at `start` the shared coordinator had recorded a restart of it.
  abbrev pub Rolled : World → Type 0
  Rolled end = Patched end ⊎ ((opts.coordinated ≡ true) × (is_recorded env wl start ≡ true))

module _ (env : Env) (poller : Poller) (opts : Options) (ctx : Context) (wl : Workload)
    (start : World) where
  abbrev pub Open : World → Type 0
  Open w = Grown start.calls w.calls

  abbrev pub Failed : Error → World → Type 0
  Failed e w = Unit

  -- The workload has been rolled.
  abbrev pub IsRolled : World → Type 0
  IsRolled w = (end : World) × Rolled env opts ctx wl start end × Grown end.calls w.calls

  -- The generation is that of the object which the patch returned.
  abbrev PatchedDeployment : ℤ → World → Type 0
  PatchedDeployment g w =
      (time : Time) × (dep : Deployment) × (dep.generation ≡ g)
      × Since (λ h. env.patched_deployment h ctx wl.namespace wl.name time)
          (Call.request ctx (Request.patch_deployment wl.namespace wl.name time)) dep start.calls
          w.calls

  restart_deployment-Patched :
      Meets Open PatchedDeployment Failed (restart_deployment env ctx wl.namespace wl.name)
  unfolding restart_deployment gets
  restart_deployment-Patched =
      Meets-bind (λ _. Open) _ _ (record { at = λ w g. g })
        (λ time.
          Meets-bind _ _ _
            (Meets-in_context _ _
              (Meets-mono (λ d w h. h) (λ e w h. tt) (ask-Meets _ _ start.calls)))
            (λ dep. Meets-pure _ (λ w h. (time, dep, refl, h))))

  deployment_waited :
      (g : ℤ) (r : Result Done) (w w' : World)
      → wl.kind ≡ deployment
      → PatchedDeployment g w
      → wait_for_deployment_rollout env poller opts ctx wl.namespace wl.name g w ≡ (r, w')
      → Post (λ _. IsRolled) Failed (r, w')
  deployment_waited g (err e) w w' k h returned = tt
  deployment_waited g (ok tt) w w' k (time, dep, generation, since) returned = (
    w',
    inl (
        deployment_rolled k time dep w since (
          subst (λ t. SawComplete env (rollout_context opts ctx) wl.namespace wl.name t w.calls w')
            (sym generation)
            (wait_for_deployment_rollout_complete env poller opts ctx wl.namespace wl.name g w w'
              returned))),
    same refl,
  )

  abbrev PatchedStatefulSet : ℤ → World → Type 0
  PatchedStatefulSet g w =
      (time : Time) × (sts : StatefulSet) × (sts.generation ≡ g)
      × Since (λ h. env.patched_stateful_set h ctx wl.namespace wl.name time)
          (Call.request ctx (Request.patch_stateful_set wl.namespace wl.name time)) sts start.calls
          w.calls

  restart_stateful_set-Patched :
      Meets Open PatchedStatefulSet Failed (restart_stateful_set env ctx wl.namespace wl.name)
  unfolding restart_stateful_set gets
  restart_stateful_set-Patched =
      Meets-bind (λ _. Open) _ _ (record { at = λ w g. g })
        (λ time.
          Meets-bind _ _ _
            (Meets-in_context _ _
              (Meets-mono (λ d w h. h) (λ e w h. tt) (ask-Meets _ _ start.calls)))
            (λ sts. Meets-pure _ (λ w h. (time, sts, refl, h))))

  stateful_set_waited :
      (g : ℤ) (r : Result Done) (w w' : World)
      → wl.kind ≡ stateful_set
      → PatchedStatefulSet g w
      → wait_for_stateful_set_rollout env poller opts ctx wl.namespace wl.name g w ≡ (r, w')
      → Post (λ _. IsRolled) Failed (r, w')
  stateful_set_waited g (err e) w w' k h returned = tt
  stateful_set_waited g (ok tt) w w' k (time, sts, generation, since) returned = (
    w',
    inl (
        stateful_set_rolled k time sts w since (
          subst (λ t. SawSettled env (rollout_context opts ctx) wl.namespace wl.name t w.calls w')
            (sym generation)
            (wait_for_stateful_set_rollout_complete env poller opts ctx wl.namespace wl.name g w w'
              returned))),
    same refl,
  )

  restart_and_wait-IsRolled :
      (k : Kind)
      → wl.kind ≡ k
      → Meets Open (λ _. IsRolled) Failed (restart_and_wait env poller opts k ctx wl)
  unfolding restart_and_wait
  restart_and_wait-IsRolled deployment e =
      Meets-bind PatchedDeployment _ _ restart_deployment-Patched (λ g.
        Meets-in_context _ _ (record {
          at = λ w h.
              let (r, w') =
                wait_for_deployment_rollout env poller opts ctx wl.namespace wl.name g w in
              deployment_waited g r w w' e h refl;
        }))
  restart_and_wait-IsRolled stateful_set e =
      Meets-bind PatchedStatefulSet _ _ restart_stateful_set-Patched (λ g.
        Meets-in_context _ _ (record {
          at = λ w h.
              let (r, w') =
                wait_for_stateful_set_rollout env poller opts ctx wl.namespace wl.name g w in
              stateful_set_waited g r w w' e h refl;
        }))
  restart_and_wait-IsRolled (other k) e = Meets-raise _ (λ w g. tt)

  Open-WorkClosed : WorkClosed Open
  Open-WorkClosed = record { works = λ c k w g. grown c g; effects = λ w files restarted g. g }

  pub trigger_restart-IsRolled :
      Meets Open (λ _. IsRolled) Failed (trigger_restart env poller opts ctx wl)
  unfolding trigger_restart
  trigger_restart-IsRolled =
      Meets-bind (λ _. Open) _ _
        (Meets-else _ (workload_event-Keeps Open-WorkClosed env opts ctx wl _ _) (λ u g. tt))
        (λ _. restart_and_wait-IsRolled wl.kind refl)

  at_start : {w : World} → w ≡ start → Open w
  at_start e = same (ap (λ (u : World). u.calls) e)

  unless_done-IsRolled :
      (action : Exec Done) (b : Bool)
      → opts.coordinated ≡ true
      → Meets Open (λ _. IsRolled) Failed action
      → Meets
          (λ w. (b ≡ is_recorded env wl start) × Open w)
          (λ _. IsRolled)
          Failed
          (unless_done env action (workload_key wl) b)
  unfolding unless_done mark_restarted
  unless_done-IsRolled action true shared rolls =
      Meets-pure tt (λ w h. (w, inr (shared, sym h.0), same refl))
  unless_done-IsRolled action false shared rolls =
      Meets-bind (λ _. IsRolled) _ _ (record { at = λ w h. rolls.at w h.1 })
        (λ _. record { at = λ w h. h })

  unless_ended-IsRolled :
      (action : Exec Done) (o : Option Error)
      → opts.coordinated ≡ true
      → Meets Open (λ _. IsRolled) Failed action
      → Meets (λ w. w ≡ start) (λ _. IsRolled) Failed (unless_ended env action (workload_key wl) o)
  unfolding unless_ended already_done gets
  unless_ended-IsRolled action (some e) shared rolls = Meets-raise _ (λ w g. tt)
  unless_ended-IsRolled action none shared rolls =
      Meets-bind (λ b w. (b ≡ is_recorded env wl start) × Open w) _ _
        (record { at = λ w e. (ap (is_recorded env wl) e, at_start e) })
        (λ b. unless_done-IsRolled action b shared rolls)

  pub coordinate-IsRolled :
      (b : Bool) (action : Exec Done)
      → opts.coordinated ≡ b
      → Meets Open (λ _. IsRolled) Failed action
      → Meets (λ w. w ≡ start) (λ _. IsRolled) Failed (coordinate env b ctx wl action)
  unfolding coordinate gets
  coordinate-IsRolled false action e rolls = record { at = λ w first. rolls.at w (at_start first) }
  coordinate-IsRolled true action e rolls =
      Meets-bind (λ _ w. w ≡ start) _ _ (record { at = λ w first. first })
        (λ o. unless_ended-IsRolled action o e rolls)
