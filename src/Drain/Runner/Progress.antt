-- ===== src/Drain/Runner/Progress.antt =====
-- What the checkpoint has when the runner's loops end without an error.
use k8s_safed.Base.{
  ◌≡◌, ◌≤◌, ℕ, zero, suc, true, false, List, [], ◌∷◌, ◌==◌, ◌||◌, arith, eq_iff, All, All-mono,
  length, take, drop, All-take-drop, length-drop-le,
}
use k8s_safed.Base.Maps.{get_flag-insert}
use k8s_safed.Cluster.Objects.{Time}
use k8s_safed.Cluster.Calls.{Context, group}
use k8s_safed.Cluster.Env.{Env, ok}
use k8s_safed.Cluster.Exec.{World}
use k8s_safed.Cluster.Exec.Meets.{
  Returns, Returns-pure, Returns-raise, Returns-bind, Returns-try_catch, Returns-any, Returns-ok,
  Meets-if, Meets-try_catch,
}
use k8s_safed.Cluster.Exec.Meets.More.{Meets-mono}
use k8s_safed.Cluster.Poll.{Poller}
use k8s_safed.Workload.{Workload, workload_key}
use k8s_safed.Drain.Options.{Options}
use k8s_safed.Drain.Checkpoint.{Checkpoint, is_done, mark_done_at}
use k8s_safed.Drain.Runner.{save_progress, restart_and_save, run_sequential, run_batch, run_batches}

-- The second checkpoint has all that the first has.
abbrev pub Continues : Checkpoint → Checkpoint → Type 0
Continues cp cp' = (v : Workload) → is_done cp v ≡ true → is_done cp' v ≡ true

abbrev Marked : Checkpoint → Workload → Checkpoint → Type 0
Marked cp w cp' = (is_done cp' w ≡ true) × Continues cp cp'

mark_done_at-Marked :
    (cp : Checkpoint) (w : Workload) (t : Time) → Marked cp w (mark_done_at cp w t)
unfolding mark_done_at is_done
mark_done_at-Marked cp w t = (
  ground (
    arith,
    get_flag-insert (workload_key w) (workload_key w) cp.completed,
    eq_iff (workload_key w) (workload_key w),
  ),
  λ v h. ground (arith, get_flag-insert (workload_key w) (workload_key v) cp.completed),
)

module _ (env : Env) (poller : Poller) (opts : Options) (kept : opts.checkpoint_path == "" ≡ false)
    (wet : opts.dry_run ≡ false) where
  save_progress-Marked :
      (cp : Checkpoint) (w : Workload) → Returns (Marked cp w) (save_progress env poller opts cp w)
  unfolding save_progress is_done
  save_progress-Marked cp w =
      Meets-if (opts.checkpoint_path == "" || opts.dry_run) _ _ (λ off. absurd (ground arith))
        (λ on.
          Returns-bind (λ _. Unit) _ _ (Returns-any _)
            (λ t _.
              Returns-bind (λ _. Unit) _ _ (Returns-any _)
                (λ _ _. Returns-pure _ (
                  mark_done_at-Marked
                    (record cp { node_name = opts.node_name; context = opts.checkpoint_context }) w
                    t))))

  restart_and_save-Marked :
      (ctx : Context) (cp : Checkpoint) (w : Workload)
      → Returns (Marked cp w) (restart_and_save env poller opts ctx cp w)
  unfolding restart_and_save
  restart_and_save-Marked ctx cp w =
      Returns-bind (λ _. Unit) _ _ (Returns-any _) (λ _ _. save_progress-Marked cp w)

  -- All the workloads are done, besides what was done before.
  abbrev AllMarked : Checkpoint → List Workload → Checkpoint → Type 0
  AllMarked cp ws cp' = All (λ w. is_done cp' w ≡ true) ws × Continues cp cp'

  one_more :
      (cp cp' cp'' : Checkpoint) (w : Workload) (ws : List Workload)
      → Marked cp w cp'
      → AllMarked cp' ws cp''
      → AllMarked cp (w ∷ ws) cp''
  one_more cp cp' cp'' w ws first rest = ((rest.1 w first.0, rest.0), λ v h. rest.1 v (first.1 v h))

  run_sequential-AllMarked :
      (ctx : Context) (cp : Checkpoint) (ws : List Workload)
      → Returns (AllMarked cp ws) (run_sequential env poller opts ctx cp ws)
  unfolding run_sequential
  run_sequential-AllMarked ctx cp [] = Returns-pure cp (tt, λ v h. h)
  run_sequential-AllMarked ctx cp (w ∷ ws) =
      Returns-bind (Marked cp w) _ _ (restart_and_save-Marked ctx cp w) (λ cp' first.
        Meets-mono (λ cp'' _ rest. one_more cp cp' cp'' w ws first rest) (λ e _ h. h)
          (run_sequential-AllMarked ctx cp' ws))

  run_batch-AllMarked :
      (ctx : Context) (cp : Checkpoint) (ws : List Workload)
      → Returns (AllMarked cp ws) (run_batch env poller opts ctx cp ws)
  unfolding run_batch
  run_batch-AllMarked ctx cp [] = Returns-pure cp (tt, λ v h. h)
  run_batch-AllMarked ctx cp (w ∷ ws) =
      Meets-try_catch (λ cp' _. Marked cp w cp') (λ _ _. Unit) _ _ _
        (restart_and_save-Marked ctx cp w)
        (λ cp'. record {
          at = λ u first.
              (Meets-mono (λ cp'' _ rest. one_more cp cp' cp'' w ws first rest) (λ e _ h. h)
                  (run_batch-AllMarked ctx cp' ws)).at
                u tt;
        })
        (λ e. Returns-try_catch _ _ _ (λ cp'. Returns-raise e) (λ later. Returns-raise e))

  run_batches-AllMarked :
      (rounds size : ℕ) (ctx : Context) (cp : Checkpoint) (ws : List Workload)
      → length ws ≤ rounds
      → Returns (AllMarked cp ws) (run_batches env poller opts rounds ctx (suc size) cp ws)
  unfolding run_batches
  run_batches-AllMarked zero size ctx cp [] enough = Returns-pure cp (tt, λ v h. h)
  run_batches-AllMarked zero size ctx cp (w ∷ ws) enough = absurd (omega arith)
  run_batches-AllMarked (suc rounds) size ctx cp [] enough = Returns-pure cp (tt, λ v h. h)
  run_batches-AllMarked (suc rounds) size ctx cp (w ∷ ws) enough =
      Returns-bind (AllMarked cp (take (suc size) (w ∷ ws))) _ _
        (run_batch-AllMarked (group ctx) cp _)
        (λ cp' first.
          Meets-mono
            (λ cp'' _ rest. (
              All-take-drop _ (suc size) (w ∷ ws)
                  (All-mono _ _ (take (suc size) (w ∷ ws)) rest.1 first.0) rest.0,
              λ v h. rest.1 v (first.1 v h),
            ))
            (λ e _ h. h)
            (run_batches-AllMarked rounds size ctx cp' (drop size ws)
              (omega (arith, length-drop-le size ws))))

-- With a checkpoint path and without --dry-run, when the sequential loop ends without an error, its
-- checkpoint has every workload of the loop as done, and whatever it had before.
pub run_sequential_done :
    (env : Env) (poller : Poller) (opts : Options) (ctx : Context) (cp : Checkpoint)
    (ws : List Workload) (w w' : World) {cp' : Checkpoint}
    → opts.checkpoint_path == "" ≡ false
    → opts.dry_run ≡ false
    → run_sequential env poller opts ctx cp ws w ≡ (ok cp', w')
    → All (λ v. is_done cp' v ≡ true) ws × Continues cp cp'
run_sequential_done env poller opts ctx cp ws w w' kept wet =
    Returns-ok _ _ w (run_sequential-AllMarked env poller opts kept wet ctx cp ws)

-- With a checkpoint path and without --dry-run, when the loop over the batches ends without an
-- error, its checkpoint has every workload as done, and whatever it had before. The batch size is
-- not 0, and as many rounds as there are workloads are enough.
pub run_batches_done :
    (env : Env) (poller : Poller) (opts : Options) (rounds size : ℕ) (ctx : Context)
    (cp : Checkpoint) (ws : List Workload) (w w' : World) {cp' : Checkpoint}
    → opts.checkpoint_path == "" ≡ false
    → opts.dry_run ≡ false
    → length ws ≤ rounds
    → run_batches env poller opts rounds ctx (suc size) cp ws w ≡ (ok cp', w')
    → All (λ v. is_done cp' v ≡ true) ws × Continues cp cp'
run_batches_done env poller opts rounds size ctx cp ws w w' kept wet enough =
    Returns-ok _ _ w (run_batches-AllMarked env poller opts kept wet rounds size ctx cp ws enough)
