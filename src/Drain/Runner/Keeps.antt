-- ===== src/Drain/Runner/Keeps.antt =====
-- What the runner keeps, if the restarts and the checkpoints of its workloads keep it.
use k8s_safed.Base.{ℕ, zero, suc, List, [], ◌∷◌, not, ◌&&◌, take, drop, ◌==◌}
use k8s_safed.Base.Int.{pos, int_eq}
use k8s_safed.Cluster.Calls.{Context, group}
use k8s_safed.Cluster.Env.{Env}
use k8s_safed.Cluster.Exec.{World}
use k8s_safed.Cluster.Exec.Keeps.{
  Keeps, keeps_rules, Keeps-bind, Keeps-pure, Keeps-raise, Keeps-try_catch, Keeps-if, Keeps-lift,
  Keeps-in_context,
}
use k8s_safed.Cluster.Reads.{ReadClosed}
use k8s_safed.Cluster.Poll.{Poller}
use k8s_safed.Workload.{Workload}
use k8s_safed.Drain.Options.{Options}
use k8s_safed.Drain.Rollout.Restart.{rolling_restart}
use k8s_safed.Drain.Checkpoint.{Checkpoint}
use k8s_safed.Drain.Checkpoint.Reads.{load_checkpoint-Keeps, checkpoint_can_skip-Keeps}
use k8s_safed.Drain.Runner.{
  save_progress, restart_and_save, run_sequential, run_batch, run_batches, run_all, run_remaining,
  run_resumed, run_sorted, run_workloads,
}
use k8s_safed.Drain.Runner.Resumed.{remaining_workloads}

module _ {P : World → Type 0} (closed : ReadClosed P) (env : Env) (opts : Options) where
  pub remaining_workloads-Keeps :
      (ctx : Context) (cp : Checkpoint) (ws : List Workload)
      → Keeps P (remaining_workloads env opts ctx cp ws)
  unfolding remaining_workloads
  remaining_workloads-Keeps ctx cp [] = Keeps-pure []
  remaining_workloads-Keeps ctx cp (w ∷ ws) =
      Keeps-bind _ _ (checkpoint_can_skip-Keeps closed env opts ctx cp w)
        (λ skip. Keeps-bind _ _ (remaining_workloads-Keeps ctx cp ws) (λ rest. Keeps-pure _))

module _ {P : World → Type 0} (closed : ReadClosed P) (env : Env) (poller : Poller) (opts : Options)
    (restarts : (ctx : Context) (w : Workload) → Keeps P (rolling_restart env poller opts ctx w))
    (saves : (cp : Checkpoint) (w : Workload) → Keeps P (save_progress env poller opts cp w)) where
  restart_and_save-Keeps :
      (ctx : Context) (cp : Checkpoint) (w : Workload)
      → Keeps P (restart_and_save env poller opts ctx cp w)
  unfolding restart_and_save
  restart_and_save-Keeps ctx cp w = Keeps-bind _ _ (restarts ctx w) (λ _. saves cp w)

  run_sequential-Keeps :
      (ctx : Context) (cp : Checkpoint) (ws : List Workload)
      → Keeps P (run_sequential env poller opts ctx cp ws)
  unfolding run_sequential
  run_sequential-Keeps ctx cp [] = Keeps-pure cp
  run_sequential-Keeps ctx cp (w ∷ ws) =
      Keeps-bind _ _ (restart_and_save-Keeps ctx cp w) (λ cp'. run_sequential-Keeps ctx cp' ws)

  run_batch-Keeps :
      (ctx : Context) (cp : Checkpoint) (ws : List Workload)
      → Keeps P (run_batch env poller opts ctx cp ws)
  unfolding run_batch
  run_batch-Keeps ctx cp [] = Keeps-pure cp
  run_batch-Keeps ctx cp (w ∷ ws) =
      Keeps-try_catch _ _ _ (restart_and_save-Keeps ctx cp w) (λ cp'. run_batch-Keeps ctx cp' ws)
        (λ e.
          Keeps-try_catch _ _ _ (run_batch-Keeps ctx cp ws) (λ cp'. Keeps-raise e)
            (λ later. Keeps-raise e))

  run_batches-Keeps :
      (rounds : ℕ) (ctx : Context) (size : ℕ) (cp : Checkpoint) (ws : List Workload)
      → Keeps P (run_batches env poller opts rounds ctx size cp ws)
  unfolding run_batches
  run_batches-Keeps zero ctx size cp ws = Keeps-pure cp
  run_batches-Keeps (suc rounds) ctx size cp [] = Keeps-pure cp
  run_batches-Keeps (suc rounds) ctx size cp (w ∷ ws) =
      Keeps-bind _ _ (run_batch-Keeps (group ctx) cp (take size (w ∷ ws)))
        (λ cp'. run_batches-Keeps rounds ctx size cp' (drop size (w ∷ ws)))

  run_all-Keeps :
      (ctx : Context) (cp : Checkpoint) (ws : List Workload)
      → Keeps P (run_all env poller opts ctx cp ws)
  unfolding run_all
  run_all-Keeps ctx cp ws =
      Keeps-if (int_eq opts.max_concurrency (pos 1)) _ _
        (λ _. search (keeps_rules, run_sequential-Keeps))
        (λ _. search (keeps_rules, run_batches-Keeps))

  pub run_remaining-Keeps :
      (ctx : Context) (cp : Checkpoint) (ws : List Workload)
      → Keeps P (run_remaining env poller opts ctx cp ws)
  unfolding run_remaining
  run_remaining-Keeps ctx cp [] = Keeps-pure tt
  run_remaining-Keeps ctx cp (w ∷ ws) = run_all-Keeps ctx cp (w ∷ ws)

  run_resumed-Keeps :
      (ctx : Context) (ws : List Workload) (cp : Checkpoint)
      → Keeps P (run_resumed env poller opts ctx ws cp)
  unfolding run_resumed
  run_resumed-Keeps ctx ws cp = Keeps-bind _ _ (Keeps-lift _) (λ _.
      Keeps-bind _ _ (remaining_workloads-Keeps closed env opts ctx cp ws)
        (λ remaining. run_remaining-Keeps ctx _ remaining))

  run_sorted-Keeps :
      (ctx : Context) (ws : List Workload) → Keeps P (run_sorted env poller opts ctx ws)
  unfolding run_sorted
  run_sorted-Keeps ctx ws =
      Keeps-if (opts.resume && not (opts.checkpoint_path == "")) _ _
        (λ _.
          Keeps-bind _ _ (Keeps-in_context _ _ (load_checkpoint-Keeps closed env _))
            (λ cp. run_resumed-Keeps ctx ws cp))
        (λ _. run_all-Keeps ctx _ ws)

  pub run_workloads-Keeps :
      (ctx : Context) (ws : List Workload) → Keeps P (run_workloads env poller opts ctx ws)
  unfolding run_workloads
  run_workloads-Keeps ctx [] = Keeps-pure tt
  run_workloads-Keeps ctx (w ∷ ws) = run_sorted-Keeps ctx _
