-- ===== src/Drain/DryRun/Restarts.antt =====
-- The restarts of a dry run only read.
use k8s_safed.Base.{◌≡◌, String, true, List, not, ◌&&◌, ◌||◌, arith, ◌==◌}
use k8s_safed.Cluster.Calls.{Context}
use k8s_safed.Cluster.Env.{Env}
use k8s_safed.Cluster.Exec.{World}
use k8s_safed.Cluster.Exec.Keeps.{Keeps, Keeps-pure, Keeps-if}
use k8s_safed.Drain.Runner.Keeps.{run_workloads-Keeps}
use k8s_safed.Cluster.Reads.{ReadClosed}
use k8s_safed.Cluster.Poll.{Poller}
use k8s_safed.Workload.{Workload}
use k8s_safed.Drain.Options.{Options}
use k8s_safed.Drain.Events.{node_event, events_enabled}
use k8s_safed.Drain.Rollout.Restart.{rolling_restart}
use k8s_safed.Drain.Checkpoint.{Checkpoint}
use k8s_safed.Drain.Runner.{save_progress, run_workloads}

module _ {P : World → Type 0} (closed : ReadClosed P) (env : Env) (poller : Poller) (opts : Options)
    (dry : opts.dry_run ≡ true) where
  pub node_event-Keeps :
      (ctx : Context) (reason kind : String) → Keeps P (node_event env opts ctx reason kind)
  unfolding node_event events_enabled
  node_event-Keeps ctx reason kind =
      Keeps-if (not (opts.emit_events && not opts.dry_run)) _ _ (λ _. Keeps-pure tt)
        (λ on. absurd (ground arith))

  rolling_restart-Keeps :
      (ctx : Context) (w : Workload) → Keeps P (rolling_restart env poller opts ctx w)
  unfolding rolling_restart
  rolling_restart-Keeps ctx w =
      Keeps-if opts.dry_run _ _ (λ _. Keeps-pure tt) (λ wet. absurd (ground arith))

  save_progress-Keeps :
      (cp : Checkpoint) (w : Workload) → Keeps P (save_progress env poller opts cp w)
  unfolding save_progress
  save_progress-Keeps cp w =
      Keeps-if (opts.checkpoint_path == "" || opts.dry_run) _ _ (λ _. Keeps-pure cp)
        (λ wet. absurd (ground arith))

  pub run_workloads_dry-Keeps :
      (ctx : Context) (ws : List Workload) → Keeps P (run_workloads env poller opts ctx ws)
  run_workloads_dry-Keeps =
      run_workloads-Keeps closed env poller opts rolling_restart-Keeps save_progress-Keeps
