-- ===== src/App/Resolved/Untouched.antt =====
-- A dry run over several nodes.
use k8s_safed.Base.{◌≡◌, refl, String, true, List, All-every}
use k8s_safed.Cluster.Calls.{Context}
use k8s_safed.Cluster.Env.{Env, Result}
use k8s_safed.Cluster.Exec.{World}
use k8s_safed.Cluster.Exec.Adds.{nothing}
use k8s_safed.Cluster.Poll.{Poller}
use k8s_safed.Drain.DryRun.{IsUntouched, IsUntouched-ReadClosed}
use k8s_safed.Drain.DryRun.Whole.{run-Keeps}
use k8s_safed.App.{AppOptions, drainer_options}
use k8s_safed.App.Resolved.{run_resolved}
use k8s_safed.App.Resolved.Keeps.{run_resolved-Keeps}

-- With --dry-run, the drains of all nodes together only read and wait, whichever of them fail: no
-- request that changes the cluster, no event, no change to a file or to the recorded restarts.
pub run_resolved_dry :
    (env : Env) (poller : Poller) (user_home_dir : Result String) (kube_context : String)
    (opts : AppOptions) (nodes : List String) (ctx : Context) (w : World)
    → opts.dry_run ≡ true
    → IsUntouched w (run_resolved env poller user_home_dir kube_context opts nodes ctx w).1
unfolding drainer_options
run_resolved_dry env poller user_home_dir kube_context opts nodes ctx w dry =
    (run_resolved-Keeps (IsUntouched w) env poller user_home_dir kube_context opts nodes ctx (
        All-every _
          (λ n inner path.
            run-Keeps (IsUntouched-ReadClosed w) env poller
              (drainer_options opts nodes kube_context n path) dry inner)
          nodes)).at
      w (record { only_reads = nothing refl; files = refl; restarted = refl })
