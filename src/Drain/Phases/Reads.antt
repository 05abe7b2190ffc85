-- ===== src/Drain/Phases/Reads.antt =====
-- The phases before the cordon only read.
use k8s_safed.Base.{List}
use k8s_safed.Cluster.Calls.{Context}
use k8s_safed.Cluster.Env.{Env}
use k8s_safed.Cluster.Exec.{World}
use k8s_safed.Cluster.Exec.Keeps.{Keeps, keeps_rules}
use k8s_safed.Cluster.Reads.{ReadClosed, get_node-Keeps}
use k8s_safed.Workload.{Workload}
use k8s_safed.Workload.Finder.Reads.{find_for_node-Keeps}
use k8s_safed.Drain.Options.{Options}
use k8s_safed.Drain.Rollout.Reads.{retry_transient-Keeps}
use k8s_safed.Drain.Checkpoint.Reads.{load_checkpoint-Keeps}
use k8s_safed.Drain.Preflight.Reads.{run_preflight-Keeps}
use k8s_safed.Drain.Phases.{
  validate_node, discover_workloads, check_checkpoint, prepare_before_cordon,
}

module _ {P : World → Type 0} (closed : ReadClosed P) (env : Env) (opts : Options)
    (ctx : Context) where
  pub validate_node-Keeps : Keeps P (validate_node env opts ctx)
  unfolding validate_node
  validate_node-Keeps =
      search (keeps_rules, retry_transient-Keeps closed env, get_node-Keeps closed env)

  pub discover_workloads-Keeps : Keeps P (discover_workloads env opts ctx)
  unfolding discover_workloads
  discover_workloads-Keeps =
      search (keeps_rules, retry_transient-Keeps closed env, find_for_node-Keeps closed env)

  check_checkpoint-Keeps : Keeps P (check_checkpoint env opts ctx)
  unfolding check_checkpoint
  check_checkpoint-Keeps = search (keeps_rules, load_checkpoint-Keeps closed env)

  pub prepare_before_cordon-Keeps :
      (ws : List Workload) → Keeps P (prepare_before_cordon env opts ctx ws)
  unfolding prepare_before_cordon
  prepare_before_cordon-Keeps ws =
      search (keeps_rules, run_preflight-Keeps closed env, check_checkpoint-Keeps)
