-- ===== src/Drain/Rollout/Restart/Finished.antt =====
-- What a rolling restart has seen when it returns without an error.
use k8s_safed.Base.{◌≡◌, refl, false}
use k8s_safed.Cluster.Calls.{Context, History, with_timeout}
use k8s_safed.Cluster.Env.{Env, Result, ok, err}
use k8s_safed.Cluster.Exec.{World, Done}
use k8s_safed.Cluster.Exec.Meets.{Post, Post-ok, Meets, Meets-if, Meets-bind}
use k8s_safed.Cluster.Exec.Meets.More.{Meets-else, Meets-in_context}
use k8s_safed.Cluster.Exec.Since.{Grown, same, grown}
use k8s_safed.Cluster.Poll.{Poller}
use k8s_safed.Workload.{Workload}
use k8s_safed.Drain.Options.{Options, pod_vacate_timeout}
use k8s_safed.Drain.Work.{WorkClosed}
use k8s_safed.Drain.Work.Restarts.{workload_event-Keeps}
use k8s_safed.Drain.Rollout.Vacate.{wait_for_pods_off_node}
use k8s_safed.Drain.Rollout.Vacate.Observed.{SawVacated, wait_for_pods_off_node_vacated}
use k8s_safed.Drain.Rollout.Restart.{rolling_restart}
use k8s_safed.Drain.Rollout.Restart.Rolled.{
  Rolled, IsRolled, coordinate-IsRolled, trigger_restart-IsRolled,
}

module _ (env : Env) (opts : Options) (ctx : Context) (wl : Workload) (start : World) where
  -- After the workload was rolled, its pods were seen off the node.
  pub record Finished (now : History) : Type 0 where
    pub restarted : World
    pub rolled : Rolled env opts ctx wl start restarted
    pub waited : World
    pub later : Grown restarted.calls waited.calls
    pub end : World
    pub vacated :
        SawVacated env opts (with_timeout (pod_vacate_timeout opts) ctx) wl waited.calls end
    pub went_on : Grown end.calls now

module _ (env : Env) (poller : Poller) (opts : Options) (ctx : Context) (wl : Workload)
    (start : World) where
  abbrev IsFinished : World → Type 0
  IsFinished w = Finished env opts ctx wl start w.calls

  vacated_after :
      (r : Result Done) (w w' : World)
      → IsRolled env poller opts ctx wl start w
      → wait_for_pods_off_node env poller opts ctx wl w ≡ (r, w')
      → Post (λ _. IsFinished) (λ _ _. Unit {0}) (r, w')
  vacated_after (err e) w w' h returned = tt
  vacated_after (ok tt) w w' (end, rolled, on) returned = record {
    restarted = end;
    rolled = rolled;
    waited = w;
    later = on;
    end = w';
    vacated = wait_for_pods_off_node_vacated env poller opts ctx wl w w' returned;
    went_on = same refl;
  }

  IsFinished-WorkClosed : WorkClosed IsFinished
  IsFinished-WorkClosed = record {
    works = λ c k w h. record {
      restarted = h.restarted;
      rolled = h.rolled;
      waited = h.waited;
      later = h.later;
      end = h.end;
      vacated = h.vacated;
      went_on = grown c h.went_on;
    };
    effects = λ w files restarted h. h;
  }

  pub rolling_restart-IsFinished :
      opts.dry_run ≡ false
      → Meets
          (λ w. w ≡ start)
          (λ _. IsFinished)
          (λ _ _. Unit {0})
          (rolling_restart env poller opts ctx wl)
  unfolding rolling_restart
  rolling_restart-IsFinished wet =
      Meets-if opts.dry_run _ _ (λ dry. absurd (cc))
        (λ _.
          Meets-bind (λ _. IsFinished) _ _
            (Meets-bind (λ _. (IsRolled env poller opts ctx wl start)) _ _
              (coordinate-IsRolled env poller opts ctx wl start opts.coordinated _ refl
                (trigger_restart-IsRolled env poller opts ctx wl start))
              (λ _. Meets-in_context _ _ (record {
                at = λ w h.
                    let (r, w') = wait_for_pods_off_node env poller opts ctx wl w in
                    vacated_after r w w' h refl;
              })))
            (λ _.
              Meets-else _ (workload_event-Keeps IsFinished-WorkClosed env opts ctx wl _ _)
                (λ u g. tt)))

-- When a rolling restart returns without an error outside a dry run, then since it began the
-- workload was patched and the wait for the generation that the patch returned has seen the rollout
-- of that generation complete, as `SawComplete` or `SawSettled` says by its kind; or there is a
-- coordinator, and when the rolling restart began it had recorded the workload as restarted. After
-- that the server has listed the pods on the node that the workload's selector selects, and each of
-- them had ended.
pub rolling_restart_finishes :
    (env : Env) (poller : Poller) (opts : Options) (ctx : Context) (wl : Workload) (w w' : World)
    → opts.dry_run ≡ false
    → rolling_restart env poller opts ctx wl w ≡ (ok tt, w')
    → Finished env opts ctx wl w w'.calls
rolling_restart_finishes env poller opts ctx wl w w' wet returned =
    Post-ok _ (λ _ _. Unit {0}) returned
      ((rolling_restart-IsFinished env poller opts ctx wl w wet).at w refl)
