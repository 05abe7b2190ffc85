-- ===== src/Drain/Runner/Finished.antt =====
-- What the loops over the workloads have seen of each workload when they end without an error.
use k8s_safed.Base.{
  ◌≡◌, refl, ℕ, zero, suc, ◌≤◌, false, List, [], ◌∷◌, ◌++◌, length, take, drop, arith, All,
  All-mono, All-append, All-front, All-back, All-take-drop, length-drop-le,
}
use k8s_safed.Cluster.Calls.{Context, Call, History, group}
use k8s_safed.Cluster.Env.{Env, Error}
use k8s_safed.Cluster.Exec.{World}
use k8s_safed.Cluster.Exec.Meets.{
  Meets, Meets-pure, Meets-raise, Meets-bind, Meets-try_catch, Returns-any,
}
use k8s_safed.Cluster.Exec.Meets.More.{Meets-and, Meets-else, Meets-mono}
use k8s_safed.Cluster.Exec.Since.{Grown, grown}
use k8s_safed.Cluster.Poll.{Poller}
use k8s_safed.Workload.{Workload}
use k8s_safed.Drain.Options.{Options}
use k8s_safed.Drain.Work.{WorkClosed}
use k8s_safed.Drain.Work.Restarts.{rolling_restart_work-Keeps, save_progress_work-Keeps}
use k8s_safed.Drain.Rollout.Restart.Finished.{Finished, rolling_restart-IsFinished}
use k8s_safed.Drain.Checkpoint.{Checkpoint}
use k8s_safed.Drain.Runner.{restart_and_save, run_sequential, run_batch, run_batches}

module _ (env : Env) (opts : Options) (before : History) where
  -- Some rolling restart of the workload since `before` has finished.
  abbrev pub IsFinished : History → Workload → Type 0
  IsFinished now v =
      (ctx : Context) × (start : World) × Grown before start.calls
      × Finished env opts ctx v start now

  abbrev pub AllFinished : List Workload → World → Type 0
  AllFinished vs w = Grown before w.calls × All (IsFinished w.calls) vs

  IsFinished-later :
      (c : Call) (now : History) (v : Workload) → IsFinished now v → IsFinished (c ∷ now) v
  IsFinished-later c now v (ctx, start, began, h) = (
    ctx,
    start,
    began,
    record {
      restarted = h.restarted;
      rolled = h.rolled;
      waited = h.waited;
      later = h.later;
      end = h.end;
      vacated = h.vacated;
      went_on = grown c h.went_on;
    },
  )

  pub closed : (vs : List Workload) → WorkClosed (AllFinished vs)
  closed vs = record {
    works = λ c k w h. (grown c h.0, All-mono _ _ vs (λ v f. IsFinished-later c w.calls v f) h.1);
    effects = λ w files restarted h. h;
  }

module _ (env : Env) (poller : Poller) (opts : Options) (before : History)
    (wet : opts.dry_run ≡ false) where
  abbrev Finishes : List Workload → World → Type 0
  Finishes = AllFinished env opts before

  abbrev Failed : Error → World → Type 0
  Failed e w = Unit

  restart_and_save-Finishes :
      (done : List Workload) (ctx : Context) (cp : Checkpoint) (v : Workload)
      → Meets
          (Finishes done)
          (λ _. Finishes (v ∷ done))
          Failed
          (restart_and_save env poller opts ctx cp v)
  unfolding restart_and_save
  restart_and_save-Finishes done ctx cp v =
      Meets-bind (λ _. Finishes (v ∷ done)) _ _
        (record {
          at = λ w h.
              (Meets-mono (λ _ u k. (k.1.0, ((ctx, w, h.0, k.0), k.1.1))) (λ e u k. tt)
                  (Meets-and _ (rolling_restart-IsFinished env poller opts ctx v w wet) (
                    rolling_restart_work-Keeps (closed env opts before done) env poller opts ctx
                      v))).at
                w (refl, h);
        })
        (λ _.
          Meets-else _
            (save_progress_work-Keeps (closed env opts before (v ∷ done)) env poller opts cp v)
            (λ u h. tt))

  pub run_sequential-Finishes :
      (done : List Workload) (ctx : Context) (cp : Checkpoint) (vs : List Workload)
      → Meets
          (Finishes done)
          (λ _ w. Finishes done w × Finishes vs w)
          Failed
          (run_sequential env poller opts ctx cp vs)
  unfolding run_sequential
  run_sequential-Finishes done ctx cp [] = Meets-pure cp (λ w h. (h, (h.0, tt)))
  run_sequential-Finishes done ctx cp (v ∷ vs) =
      Meets-bind (λ _. Finishes (v ∷ done)) _ _ (restart_and_save-Finishes done ctx cp v)
        (λ cp'.
          Meets-mono (λ _ w h. ((h.0.0, h.0.1.1), (h.0.0, (h.0.1.0, h.1.1)))) (λ e w h. tt)
            (run_sequential-Finishes (v ∷ done) ctx cp' vs))

  run_batch-Finishes :
      (done : List Workload) (ctx : Context) (cp : Checkpoint) (vs : List Workload)
      → Meets
          (Finishes done)
          (λ _ w. Finishes done w × Finishes vs w)
          Failed
          (run_batch env poller opts ctx cp vs)
  unfolding run_batch
  run_batch-Finishes done ctx cp [] = Meets-pure cp (λ w h. (h, (h.0, tt)))
  run_batch-Finishes done ctx cp (v ∷ vs) =
      Meets-try_catch (λ _. Finishes (v ∷ done)) Failed _ _ _
        (restart_and_save-Finishes done ctx cp v)
        (λ cp'.
          Meets-mono (λ _ w h. ((h.0.0, h.0.1.1), (h.0.0, (h.0.1.0, h.1.1)))) (λ e w h. tt)
            (run_batch-Finishes (v ∷ done) ctx cp' vs))
        (λ e.
          Meets-try_catch (λ _ _. Unit {0}) Failed _ _ _ (Returns-any _)
            (λ cp'. Meets-raise e (λ w h. tt)) (λ later. Meets-raise e (λ w h. tt)))

  pub run_batches-Finishes :
      (rounds size : ℕ) (done : List Workload) (ctx : Context) (cp : Checkpoint)
      (vs : List Workload)
      → length vs ≤ rounds
      → Meets
          (Finishes done)
          (λ _ w. Finishes done w × Finishes vs w)
          Failed
          (run_batches env poller opts rounds ctx (suc size) cp vs)
  unfolding run_batches
  run_batches-Finishes zero size done ctx cp [] enough = Meets-pure cp (λ w h. (h, (h.0, tt)))
  run_batches-Finishes zero size done ctx cp (v ∷ vs) enough = absurd (omega arith)
  run_batches-Finishes (suc rounds) size done ctx cp [] enough =
      Meets-pure cp (λ w h. (h, (h.0, tt)))
  run_batches-Finishes (suc rounds) size done ctx cp (v ∷ vs) enough =
      let batch = take (suc size) (v ∷ vs) in
      Meets-bind (λ _. Finishes (batch ++ done)) _ _
        (Meets-mono (λ _ w h. (h.0.0, All-append _ batch done h.1.1 h.0.1)) (λ e w h. tt)
          (run_batch-Finishes done (group ctx) cp batch))
        (λ cp'.
          Meets-mono
            (λ _ w h. (
              (h.0.0, All-back _ batch done h.0.1),
              (h.0.0, All-take-drop _ (suc size) (v ∷ vs) (All-front _ batch done h.0.1) h.1.1),
            ))
            (λ e w h. tt)
            (run_batches-Finishes rounds size (batch ++ done) ctx cp' (drop size vs)
              (omega (arith, length-drop-le size vs))))
