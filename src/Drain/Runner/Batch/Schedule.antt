-- ===== src/Drain/Runner/Batch/Schedule.antt =====
-- The schedule of `run_batch` is one of the interleavings.
use k8s_safed.Base.{
  ◌≡◌, refl, sym, subst, ◌⊎◌, inl, inr, true, false, none, List, [], ◌∷◌, ◌||◌, ◌==◌, map, any, All,
  All-mono,
}
use k8s_safed.Cluster.Objects.{Time}
use k8s_safed.Cluster.Calls.{Context, Call, History}
use k8s_safed.Cluster.Env.{Env, Result, ok, err}
use k8s_safed.Cluster.Exec.{World, Done}
use k8s_safed.Cluster.Exec.Meets.{
  Returns, Returns-pure, Returns-raise, Returns-bind, Returns-try_catch, Returns-any, Returns-ok,
  Meets, Meets-if, Meets-try_catch, Meets-pure, Meets-bind, Meets-raise, Post, Post-ok,
}
use k8s_safed.Cluster.Exec.Meets.More.{Meets-mono, Meets-else, Post-and, Post-mono}
use k8s_safed.Cluster.Exec.Since.{Grown, same, grown}
use k8s_safed.Drain.Work.{WorkClosed}
use k8s_safed.Drain.Work.Restarts.{rolling_restart_work-Keeps, save_progress_work-Keeps}
use k8s_safed.Drain.Rollout.Restart.{rolling_restart}
use k8s_safed.Cluster.Poll.{Poller}
use k8s_safed.Workload.{Workload}
use k8s_safed.Drain.Options.{Options}
use k8s_safed.Drain.Checkpoint.{Checkpoint}
use k8s_safed.Drain.Runner.{save_progress, restart_and_save, run_batch}
use k8s_safed.Drain.Runner.Batch.{
  restarts, ended, Batch, saves_nothing, holds, marked, here, there, Step, restarted, fails, skips,
  locks, records, stores, loses, Steps, none_yet, then, started,
}
use k8s_safed.Drain.Runner.Batch.Ends.{is_running}

module _ (opts : Options) where
  abbrev behind : Workload → Batch → Batch
  behind w b = record b { tasks = (w, ended) ∷ b.tasks }

  -- A step of the others, after a task has ended.
  Step-behind : (w : Workload) {b c : Batch} → Step opts b c → Step opts (behind w b) (behind w c)
  Step-behind w (restarted v m) = restarted v (there m)
  Step-behind w (fails v e m) = fails v e (there m)
  Step-behind w (skips v off m) = skips v off (there m)
  Step-behind w (locks v on free m) = locks v on free (there m)
  Step-behind w (records v time m) = records v time (there m)
  Step-behind w (stores v m) = stores v (there m)
  Step-behind w (loses v m) = loses v (there m)

  Steps-behind :
      (w : Workload) {b c d : Batch}
      → Steps opts d (behind w b)
      → Steps opts b c
      → Steps opts d (behind w c)
  Steps-behind w first none_yet = first
  Steps-behind w first (then run step) = then (Steps-behind w first run) (Step-behind w step)

  started-free : (ws : List Workload) → any holds (map (λ w. (w, restarts)) ws) ≡ false
  started-free [] = refl
  started-free (w ∷ ws) = started-free ws

  -- What `save_progress` returns.
  abbrev Saved : Checkpoint → Workload → Checkpoint → Type 0
  Saved cp w cp' =
      ((saves_nothing opts ≡ true) × (cp' ≡ cp))
      ⊎ ((saves_nothing opts ≡ false) × ((time : Time) × (cp' ≡ marked opts cp w time)))

  -- The first goroutine from its start to its end.
  first_ends :
      (cp cp' : Checkpoint) (w : Workload) (ws : List Workload)
      → Saved cp w cp'
      → Steps opts (started cp (w ∷ ws)) (behind w (started cp' ws))
  first_ends cp cp' w ws (inl (off, equal)) =
      subst (λ c. Steps opts (started cp (w ∷ ws)) (behind w (started c ws))) (sym equal)
        (then (then none_yet (restarted w here)) (skips w off here))
  first_ends cp cp' w ws (inr (on, (time, equal))) =
      subst (λ c. Steps opts (started cp (w ∷ ws)) (behind w (started c ws))) (sym equal)
        (then
          (then (then (then none_yet (restarted w here)) (locks w on (started-free ws) here))
            (records w time here))
          (loses w here))

  -- Some interleaving ends without an error and with this checkpoint.
  pub record IsInterleaving (cp : Checkpoint) (ws : List Workload) (cp' : Checkpoint) : Type 0 where
    pub end : Batch
    pub run : Steps opts (started cp ws) end
    pub over : any is_running end.tasks ≡ false
    pub fine : end.first_error ≡ none
    pub checkpoint : end.checkpoint ≡ cp'

  one_more :
      (cp cp' cp'' : Checkpoint) (w : Workload) (ws : List Workload)
      → Saved cp w cp'
      → IsInterleaving cp' ws cp''
      → IsInterleaving cp (w ∷ ws) cp''
  one_more cp cp' cp'' w ws saved i = record {
    end = behind w i.end;
    run = Steps-behind w (first_ends cp cp' w ws saved) i.run;
    over = i.over;
    fine = i.fine;
    checkpoint = i.checkpoint;
  }

  module _ (env : Env) (poller : Poller) (ctx : Context) where
    save_progress-Saved :
        (cp : Checkpoint) (w : Workload) → Returns (Saved cp w) (save_progress env poller opts cp w)
    unfolding save_progress
    save_progress-Saved cp w =
        Meets-if (opts.checkpoint_path == "" || opts.dry_run) _ _
          (λ off. Returns-pure _ (inl (off, refl)))
          (λ on.
            Returns-bind (λ _. Unit) _ _ (Returns-any _)
              (λ t _.
                Returns-bind (λ _. Unit) _ _ (Returns-any _)
                  (λ _ _. Returns-pure _ (inr (on, (t, refl))))))

    restart_and_save-Saved :
        (cp : Checkpoint) (w : Workload)
        → Returns (Saved cp w) (restart_and_save env poller opts ctx cp w)
    unfolding restart_and_save
    restart_and_save-Saved cp w =
        Returns-bind (λ _. Unit) _ _ (Returns-any _) (λ _ _. save_progress-Saved cp w)

    run_batch-IsInterleaving :
        (cp : Checkpoint) (ws : List Workload)
        → Returns (IsInterleaving cp ws) (run_batch env poller opts ctx cp ws)
    unfolding run_batch
    run_batch-IsInterleaving cp [] = Returns-pure cp (record {
      end = started cp [];
      run = none_yet;
      over = refl;
      fine = refl;
      checkpoint = refl;
    })
    run_batch-IsInterleaving cp (w ∷ ws) =
        Meets-try_catch (λ cp' _. Saved cp w cp') (λ _ _. Unit) _ _ _ (restart_and_save-Saved cp w)
          (λ cp'. record {
            at = λ u saved.
                (Meets-mono (λ cp'' _ i. one_more cp cp' cp'' w ws saved i) (λ e _ h. h)
                    (run_batch-IsInterleaving cp' ws)).at
                  u tt;
          })
          (λ e. Returns-try_catch _ _ _ (λ cp'. Returns-raise e) (λ later. Returns-raise e))

module _ (env : Env) (poller : Poller) (opts : Options) (ctx : Context) (before : History) where
  -- A rolling restart of the workload began since `before` and has returned without an error.
  abbrev pub Succeeded : History → Workload → Type 0
  Succeeded now v =
      (began : World) × (end : World) × Grown before began.calls
      × (rolling_restart env poller opts ctx v began ≡ (ok tt, end))
      × Grown end.calls now

  abbrev AllSucceeded : List Workload → World → Type 0
  AllSucceeded vs w = Grown before w.calls × All (Succeeded w.calls) vs

  closed : (vs : List Workload) → WorkClosed (AllSucceeded vs)
  closed vs = record {
    works = λ c k w h. (grown c h.0, All-mono _ _ vs (λ v s. later v w.calls c s) h.1);
    effects = λ w files restarted h. h;
  }
    where
      later : (v : Workload) (now : History) (c : Call) → Succeeded now v → Succeeded (c ∷ now) v
      later v now c (began, end, g, ran, on) = (began, end, g, ran, grown c on)

  succeeded :
      (v : Workload) (r : Result Done) (w w' : World)
      → Grown before w.calls
      → rolling_restart env poller opts ctx v w ≡ (r, w')
      → Post (λ _ u. Succeeded u.calls v) (λ _ _. Unit {0}) (r, w')
  succeeded v (err e) w w' g ran = tt
  succeeded v (ok tt) w w' g ran = (w, w', g, ran, same refl)

  restart_and_save-Succeeds :
      (done : List Workload) (cp : Checkpoint) (v : Workload)
      → Meets
          (AllSucceeded done)
          (λ _. AllSucceeded (v ∷ done))
          (λ _ _. Unit {0})
          (restart_and_save env poller opts ctx cp v)
  unfolding restart_and_save
  restart_and_save-Succeeds done cp v =
      Meets-bind (λ _. AllSucceeded (v ∷ done)) _ _
        (record {
          at = λ w h.
              let (r, w') = rolling_restart env poller opts ctx v w in
              Post-mono (λ _ u k. (k.1.0, (k.0, k.1.1))) (λ e u k. tt) r w'
                (Post-and (AllSucceeded done) (λ _ u. Succeeded u.calls v) (λ _ _. Unit {0}) r w'
                  (succeeded v r w w' h.0 refl)
                  ((rolling_restart_work-Keeps (closed done) env poller opts ctx v).at w h));
        })
        (λ _.
          Meets-else _ (save_progress_work-Keeps (closed (v ∷ done)) env poller opts cp v)
            (λ u h. tt))

  run_batch-Succeeds :
      (done : List Workload) (cp : Checkpoint) (vs : List Workload)
      → Meets
          (AllSucceeded done)
          (λ _ w. AllSucceeded done w × AllSucceeded vs w)
          (λ _ _. Unit {0})
          (run_batch env poller opts ctx cp vs)
  unfolding run_batch
  run_batch-Succeeds done cp [] = Meets-pure cp (λ w h. (h, (h.0, tt)))
  run_batch-Succeeds done cp (v ∷ vs) =
      Meets-try_catch (λ _. AllSucceeded (v ∷ done)) (λ _ _. Unit {0}) _ _ _
        (restart_and_save-Succeeds done cp v)
        (λ cp'.
          Meets-mono (λ _ w h. ((h.0.0, h.0.1.1), (h.0.0, (h.0.1.0, h.1.1)))) (λ e w h. tt)
            (run_batch-Succeeds (v ∷ done) cp' vs))
        (λ e.
          Meets-try_catch (λ _ _. Unit {0}) (λ _ _. Unit {0}) _ _ _ (Returns-any _)
            (λ cp'. Meets-raise e (λ w h. tt)) (λ later. Meets-raise e (λ w h. tt)))

-- When `run_batch` returns a checkpoint without an error, then during it a rolling restart of every
-- workload of the batch has returned without an error, and the checkpoint is the end of an
-- interleaving of the goroutines in which each restart returns and none fails: the schedule that the
-- whole runs are modelled with is a run of the step relation.
pub run_batch-scheduled :
    (env : Env) (poller : Poller) (opts : Options) (ctx : Context) (cp : Checkpoint)
    (ws : List Workload) (w w' : World) {cp' : Checkpoint}
    → run_batch env poller opts ctx cp ws w ≡ (ok cp', w')
    → IsInterleaving opts cp ws cp' × All (Succeeded env poller opts ctx w.calls w'.calls) ws
run_batch-scheduled env poller opts ctx cp ws w w' returned = (
  Returns-ok _ _ w (run_batch-IsInterleaving opts env poller ctx cp ws) returned,
  (Post-ok _ (λ _ _. Unit {0}) returned
      ((run_batch-Succeeds env poller opts ctx w.calls [] cp ws).at w (same refl, tt))).1.1,
)
