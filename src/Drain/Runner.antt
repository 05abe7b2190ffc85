-- ===== src/Drain/Runner.antt =====
-- pkg/drain/workload_runner.go: the rolling restarts, one by one or in batches.
pub mod Order
pub mod Resumed
pub mod Keeps
pub mod Progress
pub mod Finished
pub mod Remaining
pub mod Skipped
pub mod Restarted
pub mod Batch
use k8s_safed.Base.{
  ℕ, zero, suc, ◌+◌, ◌-◌, String, Bool, true, false, Option, none, some, List, [], ◌∷◌, ◌++◌, not,
  ◌&&◌, ◌||◌, ◌==◌, length, take, drop, if◌then◌else◌,
}
use k8s_safed.Base.Int.{ℤ, pos, int_eq, int_leb, pos_part}
use k8s_safed.Cluster.Calls.{Context, group}
use k8s_safed.Cluster.Env.{Env, Error}
use k8s_safed.Cluster.Exec.{
  Exec, Done, pure, raise, ignore, in_context, lift, ◌>>=◌, ◌>>◌, try_catch,
}
use k8s_safed.Cluster.Requests.{now}
use k8s_safed.Cluster.Poll.{Poller}
use k8s_safed.Workload.{Workload}
use k8s_safed.Drain.Options.{Options}
use k8s_safed.Drain.Checkpoint.{Checkpoint, new_checkpoint, mark_done_at}
use k8s_safed.Drain.Checkpoint.Store.{load_checkpoint, save}
use k8s_safed.Drain.Checkpoint.Resume.{validate_checkpoint}
use k8s_safed.Drain.Rollout.Restart.{rolling_restart}
use Order.{sort_by_priority}
use Resumed.{remaining_workloads}

module _ (env : Env) (poller : Poller) (opts : Options) where
  -- `saveCP`: the checkpoint after it. A failed write is logged and dropped.
  unfoldable pub save_progress : Checkpoint → Workload → Exec Checkpoint
  save_progress cp w =
      if opts.checkpoint_path == "" || opts.dry_run
      then pure cp
      else now env >>= λ time.
          let cp' =
            mark_done_at
              (record cp { node_name = opts.node_name; context = opts.checkpoint_context }) w
              time in
          ignore (save env cp' opts.checkpoint_path) >> pure cp'

  -- The body of both loops: a rolling restart, and then the checkpoint.
  unfoldable pub restart_and_save : Context → Checkpoint → Workload → Exec Checkpoint
  restart_and_save ctx cp w = rolling_restart env poller opts ctx w >> save_progress cp w

  -- The sequential path: the first error ends the loop.
  unfoldable pub run_sequential : Context → Checkpoint → List Workload → Exec Checkpoint
  run_sequential ctx cp [] = pure cp
  run_sequential ctx cp (w ∷ ws) = restart_and_save ctx cp w >>= λ cp'. run_sequential ctx cp' ws

  -- The goroutines of a batch, in the schedule that runs each to its end in the order of the
  -- batch. An error does not keep the later ones from running, under a context that is cancelled;
  -- the first error is the result.
  unfoldable pub run_batch : Context → Checkpoint → List Workload → Exec Checkpoint
  run_batch ctx cp [] = pure cp
  run_batch ctx cp (w ∷ ws) =
      try_catch (restart_and_save ctx cp w) (λ cp'. run_batch ctx cp' ws)
        (λ e. try_catch (run_batch ctx cp ws) (λ cp'. raise e) (λ later. raise e))

  -- The loop over the batches, with as many rounds as there are workloads at most.
  unfoldable pub run_batches : ℕ → Context → ℕ → Checkpoint → List Workload → Exec Checkpoint
  run_batches zero ctx size cp ws = pure cp
  run_batches (suc rounds) ctx size cp [] = pure cp
  run_batches (suc rounds) ctx size cp (w ∷ ws) =
      run_batch (group ctx) cp (take size (w ∷ ws)) >>= λ cp'.
      run_batches rounds ctx size cp' (drop size (w ∷ ws))

  -- `maxC`: 0 and less is no limit.
  unfoldable pub batch_size : List Workload → ℕ
  batch_size ws =
      if int_leb opts.max_concurrency (pos 0) then length ws else pos_part opts.max_concurrency

  unfoldable pub run_all : Context → Checkpoint → List Workload → Exec Done
  run_all ctx cp ws =
      if int_eq opts.max_concurrency (pos 1)
      then run_sequential ctx cp ws >> pure tt
      else run_batches (length ws) ctx (batch_size ws) cp ws >> pure tt

  -- Nothing is left to do when the checkpoint has every workload.
  unfoldable pub run_remaining : Context → Checkpoint → List Workload → Exec Done
  run_remaining ctx cp [] = pure tt
  run_remaining ctx cp (w ∷ ws) = run_all ctx cp (w ∷ ws)

  abbrev pub resumes : Bool
  resumes = opts.resume && not (opts.checkpoint_path == "")

  -- With a checkpoint: what it has is left out.
  unfoldable pub run_resumed : Context → List Workload → Checkpoint → Exec Done
  run_resumed ctx ws cp =
      lift (validate_checkpoint opts cp)
      >> (remaining_workloads env opts ctx cp ws >>= λ remaining.
          run_remaining ctx
            (record cp { node_name = opts.node_name; context = opts.checkpoint_context }) remaining)

  unfoldable pub run_sorted : Context → List Workload → Exec Done
  run_sorted ctx ws =
      if resumes
      then in_context "loading checkpoint" (load_checkpoint env opts.checkpoint_path)
        >>= run_resumed ctx ws
      else run_all ctx
          (record new_checkpoint { node_name = opts.node_name; context = opts.checkpoint_context })
          ws

  unfoldable pub run_workloads : Context → List Workload → Exec Done
  run_workloads ctx [] = pure tt
  run_workloads ctx (w ∷ ws) = run_sorted ctx (sort_by_priority (w ∷ ws))
