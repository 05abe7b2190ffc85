-- ===== src/Drain/Runner/Restarted.antt =====
-- What `runWorkloads` has seen of each workload when it ends without an error.
use k8s_safed.Base.{
  ◌≡◌, refl, sym, ap, ◌⊎◌, inl, inr, true, false, List, [], ◌∷◌, All, All-mono, All-Listed_at, not,
  ◌&&◌, ◌==◌,
}
use k8s_safed.Cluster.Calls.{Context}
use k8s_safed.Cluster.Env.{Env, Result, ok, err}
use k8s_safed.Cluster.Exec.{World}
use k8s_safed.Cluster.Exec.Keeps.{Keeps-lift}
use k8s_safed.Cluster.Exec.Meets.{
  Post, Post-ok, Meets, Meets-pure, Meets-if, Meets-bind, Returns-lift,
}
use k8s_safed.Cluster.Exec.Meets.More.{Meets-and, Meets-mono, Meets-in_context, Post-and, Post-mono}
use k8s_safed.Cluster.Exec.Since.{Grown, same}
use k8s_safed.Cluster.Poll.{Poller}
use k8s_safed.Workload.{Workload}
use k8s_safed.Drain.Options.{Options}
use k8s_safed.Drain.Work.{WorkClosed-ReadClosed}
use k8s_safed.Drain.Work.Restarts.{rolling_restart_work-Keeps, save_progress_work-Keeps}
use k8s_safed.Drain.Checkpoint.{Checkpoint, new_checkpoint}
use k8s_safed.Drain.Checkpoint.Store.{load_checkpoint}
use k8s_safed.Drain.Checkpoint.Resume.{validate_checkpoint}
use k8s_safed.Drain.Checkpoint.Reads.{load_checkpoint-Keeps}
use k8s_safed.Drain.Runner.Order.{sort_by_priority}
use k8s_safed.Drain.Runner.Keeps.{run_remaining-Keeps}
use k8s_safed.Drain.Runner.Finished.{IsFinished, AllFinished}
use k8s_safed.Drain.Runner.Remaining.{unsorted, run_all-Finishes, run_remaining-Finishes}
use k8s_safed.Drain.Runner.{resumes, run_remaining, run_resumed, run_sorted, run_workloads}
use k8s_safed.Drain.Runner.Skipped.{
  IsSkipped, AllDone, AllRestarted, Decided, by_this_drain, going, remaining_workloads-Decided,
  Decided-stays,
}

module _ (env : Env) (poller : Poller) (opts : Options) (ctx : Context) (start : World)
    (wet : opts.dry_run ≡ false) where
  abbrev Restarted : List Workload → World → Type 0
  Restarted = AllDone env opts ctx start

  run_remaining-Decided :
      (cp : Checkpoint) (vs remaining : List Workload) (next : Checkpoint)
      → Meets
          (λ w.
            All (Decided env opts ctx start cp remaining w.calls) vs × Grown start.calls w.calls)
          (λ _ w.
            AllFinished env opts start.calls remaining w
            × All (Decided env opts ctx start cp remaining w.calls) vs)
          (λ _ _. Unit {0})
          (run_remaining env poller opts ctx next remaining)
  run_remaining-Decided cp vs remaining next =
      let stays = Decided-stays env opts ctx start cp vs remaining in
      record {
        at = λ w h.
            (Meets-mono (λ a u k. k) (λ e u k. tt)
                (Meets-and _
                  (run_remaining-Finishes env poller opts start.calls wet ctx next remaining)
                  (run_remaining-Keeps (WorkClosed-ReadClosed stays) env poller opts
                    (rolling_restart_work-Keeps stays env poller opts)
                    (save_progress_work-Keeps stays env poller opts) ctx next remaining))).at
              w ((h.1, tt), h.0);
      }

  abbrev IsLoaded : Checkpoint → Type 0
  IsLoaded cp =
      (loaded : World) × (load_checkpoint env opts.checkpoint_path start ≡ (ok cp, loaded))

  restarted :
      (cp : Checkpoint) (vs remaining : List Workload) (w : World)
      → opts.resume && not (opts.checkpoint_path == "") ≡ true
      → IsLoaded cp
      → validate_checkpoint opts cp ≡ ok tt
      → AllFinished env opts start.calls remaining w
      → All (Decided env opts ctx start cp remaining w.calls) vs
      → Restarted vs w
  restarted cp vs remaining w resumed (loaded, load) valid finished all =
      All-mono _ _ vs (λ v d. known d) all
    where
      known :
          {v : Workload}
          → Decided env opts ctx start cp remaining w.calls v
          → IsSkipped env opts ctx start w.calls v ⊎ IsFinished env opts start.calls w.calls v
      known (inl asked) = inl (record {
        resumed = resumed;
        cp = cp;
        loaded = loaded;
        load = load;
        valid = valid;
        skips = asked;
      })
      known (inr listed) = inr (All-Listed_at _ remaining finished.1 listed)

  run_resumed-Restarted :
      (vs : List Workload) (cp : Checkpoint)
      → opts.resume && not (opts.checkpoint_path == "") ≡ true
      → Meets
          (λ w. IsLoaded cp × Grown start.calls w.calls)
          (λ _. Restarted vs)
          (λ _ _. Unit {0})
          (run_resumed env poller opts ctx vs cp)
  unfolding run_resumed
  run_resumed-Restarted vs cp resumed = record {
    at = λ w h.
        (Meets-bind (λ _ u. (validate_checkpoint opts cp ≡ ok tt) × Grown start.calls u.calls) _ _
            (record {
              at = λ u g.
                  (Meets-mono (λ a x k. k) (λ e x k. tt)
                      (Meets-and _ (Returns-lift (validate_checkpoint opts cp)) (Keeps-lift _))).at
                    u (tt, g);
            })
            (λ done. record {
              at = λ u k.
                  (Meets-bind _ _ _ (remaining_workloads-Decided env opts ctx start cp vs)
                      (λ remaining.
                        Meets-mono
                          (λ _ x both. restarted cp vs remaining x resumed h.0 k.0 both.0 both.1)
                          (λ e x t. tt) (run_remaining-Decided cp vs remaining _))).at
                    u k.1;
            })).at
          w h.1;
  }

  load-by :
      (r : Result Checkpoint) (u : World)
      → load_checkpoint env opts.checkpoint_path start ≡ (r, u)
      → Post (λ cp _. IsLoaded cp) (λ _ _. Unit {0}) (r, u)
  load-by (err e) u load = tt
  load-by (ok cp) u load = (u, load)

  load-IsLoaded :
      Meets
        (λ w. w ≡ start)
        (λ cp w. IsLoaded cp × Grown start.calls w.calls)
        (λ _ _. Unit {0})
        (load_checkpoint env opts.checkpoint_path)
  load-IsLoaded = record {
    at = λ w e.
        let reads = going env opts ctx start new_checkpoint in
        let (r, u) = load_checkpoint env opts.checkpoint_path w in
        Post-mono (λ cp x h. h) (λ e' x h. tt) r u
          (Post-and (λ x. Grown start.calls x.calls) (λ cp _. IsLoaded cp) (λ _ _. Unit {0}) r u
            (load-by r u (ap (load_checkpoint env opts.checkpoint_path) (sym e)))
            ((load_checkpoint-Keeps reads env opts.checkpoint_path).at w
              (same (ap (λ (x : World). x.calls) e))));
  }

  run_sorted-Restarted :
      (vs : List Workload)
      → Meets
          (λ w. w ≡ start)
          (λ _. Restarted vs)
          (λ _ _. Unit {0})
          (run_sorted env poller opts ctx vs)
  unfolding run_sorted
  run_sorted-Restarted vs =
      Meets-if (resumes env poller opts) _ _
        (λ resumed.
          Meets-bind (λ cp w. IsLoaded cp × Grown start.calls w.calls) _ _
            (Meets-in_context _ _ load-IsLoaded) (λ cp. run_resumed-Restarted vs cp resumed))
        (λ fresh. record {
          at = λ w e.
              (Meets-mono (λ _ u h. All-mono _ _ vs (λ v f. inr f) h.1) (λ e' u h. tt)
                  (run_all-Finishes env poller opts start.calls wet ctx _ vs)).at
                w (same (ap (λ (x : World). x.calls) e), tt);
        })

  pub run_workloads-Restarted :
      (vs : List Workload)
      → Meets
          (λ w. w ≡ start)
          (λ _. Restarted vs)
          (λ _ _. Unit {0})
          (run_workloads env poller opts ctx vs)
  unfolding run_workloads
  run_workloads-Restarted [] = Meets-pure tt (λ w e. tt)
  run_workloads-Restarted (v ∷ vs) = record {
    at = λ w e.
        (Meets-mono (λ _ u all. unsorted _ (v ∷ vs) all) (λ e' u t. tt)
            (run_sorted-Restarted (sort_by_priority (v ∷ vs)))).at
          w e;
  }

-- Without a coordinator, which a drain of one node does not have: when `run_workloads` returns
-- without an error outside a dry run, then each workload of its list was skipped, or a rolling
-- restart of it that began since the call has finished: the workload was patched and the rollout of
-- that generation was seen complete, as `Patched` says, and after that its pods were listed on the
-- node and each of them had ended, as `Finished` says. A workload was skipped only if the run resumes, the checkpoint
-- that was loaded at the call is valid for this drain, and `checkpoint_can_skip` has since answered
-- for that checkpoint that the workload may be skipped.
pub run_workloads_restarts :
    (env : Env) (poller : Poller) (opts : Options) (ctx : Context) (vs : List Workload)
    (w w' : World)
    → opts.dry_run ≡ false
    → opts.coordinated ≡ false
    → run_workloads env poller opts ctx vs w ≡ (ok tt, w')
    → AllRestarted env opts ctx w vs w'
run_workloads_restarts env poller opts ctx vs w w' wet alone returned =
    by_this_drain env opts ctx w alone vs w' (
      Post-ok _ (λ _ _. Unit {0}) returned
        ((run_workloads-Restarted env poller opts ctx w wet vs).at w refl))
