-- ===== src/Drain/Preflight.antt =====
-- pkg/drain/preflight.go: the checks before the drain changes anything.
pub mod Patterns
pub mod Budgets
pub mod Reads
pub mod Strict
use k8s_safed.Base.{
  ℕ, suc, ◌+◌, String, Bool, true, false, Option, none, some, List, [], ◌∷◌, ◌++◌, ◌&&◌, ◌==◌, ltb,
  if◌then◌else◌,
}
use k8s_safed.Base.Int.{ℤ, pos, int_ltb, int_eq}
use k8s_safed.Cluster.Objects.{Deployment, StatefulSet}
use k8s_safed.Cluster.Calls.{Context}
use k8s_safed.Cluster.Env.{Env, Error, message, wrap}
use k8s_safed.Cluster.Exec.{Exec, Done, pure, raise, ◌>>=◌, try_catch}
use k8s_safed.Cluster.Requests.{get_deployment, get_stateful_set}
use k8s_safed.Workload.{Kind, deployment, stateful_set, other, Workload, workload_key}
use k8s_safed.Drain.Options.{Options, PreflightMode, warn, strict, off}
use k8s_safed.Drain.Rollout.DeploymentWait.{desired_replicas}
use Patterns.{is_nil, matches_stateful_pattern}
use Budgets.{Issue, budget_issues, unique_namespaces}

abbrev issue_if : Bool → String → String → Bool → List Issue
issue_if true subject text risk = record { subject = subject; text = text; risk = risk } ∷ []
issue_if false subject text risk = []

unfoldable pub deployment_issues : Deployment → String → List Issue
deployment_issues dep subject =
    issue_if (int_eq (desired_replicas dep.replicas) (pos 1)) subject "single replica" true
    ++ (issue_if (dep.strategy == "Recreate") subject "Recreate strategy" true
        ++ issue_if dep.paused subject "paused Deployment" true)

-- `RollingUpdate != nil && Partition != nil && *Partition > 0`
abbrev is_partitioned : Option (Option ℤ) → Bool
is_partitioned none = false
is_partitioned (some none) = false
is_partitioned (some (some n)) = int_ltb (pos 0) n

abbrev replica_issue : Bool → String → List Issue
replica_issue true subject = issue_if true subject "single replica StatefulSet" true
replica_issue false subject = issue_if true subject "StatefulSet" false

unfoldable pub stateful_set_issues : StatefulSet → String → List Issue
stateful_set_issues sts subject =
    replica_issue (int_eq (desired_replicas sts.replicas) (pos 1)) subject
    ++ (issue_if (sts.update_strategy == "OnDelete") subject "OnDelete update strategy" true
        ++ issue_if (is_partitioned sts.rolling_update) subject "partitioned StatefulSet rollout"
            true)

abbrev name_issue : List ℕ → String → List Issue
name_issue pattern subject =
    if is_nil pattern then [] else issue_if true subject "detected known stateful service" false

abbrev is_strict : PreflightMode → Bool
is_strict strict = true
is_strict warn = false
is_strict off = false

abbrev pub risk_count : List Issue → ℕ
risk_count [] = 0
risk_count (issue ∷ issues) = if issue.risk then suc (risk_count issues) else risk_count issues

module _ (env : Env) (opts : Options) (ctx : Context) where
  -- An object that cannot be read ends a strict preflight, and is reported by any other.
  unfoldable pub unless_strict : Error → Exec (List Issue)
  unless_strict e =
      if is_strict opts.preflight then raise (wrap "pre-flight: could not inspect" e) else pure []

  -- The `switch` on the kind.
  unfoldable pub inspect : Kind → Workload → Exec (List Issue)
  inspect deployment w =
      try_catch (get_deployment env ctx w.namespace w.name)
        (λ dep. pure (deployment_issues dep (workload_key w))) unless_strict
  inspect stateful_set w =
      try_catch (get_stateful_set env ctx w.namespace w.name)
        (λ sts. pure (stateful_set_issues sts (workload_key w))) unless_strict
  inspect (other k) w = pure []

  -- The loop over the workloads.
  unfoldable pub inspect_all : List Workload → Exec (List Issue)
  inspect_all [] = pure []
  inspect_all (w ∷ ws) = inspect w.kind w >>= λ found. inspect_all ws >>= λ rest. pure (
      found
      ++ (name_issue (matches_stateful_pattern w.name opts.stateful_name_patterns) (workload_key w)
          ++ rest))

  unfoldable pub judge : List Issue → Exec Done
  judge issues =
      if is_strict opts.preflight && ltb 0 (risk_count issues)
      then raise (message "pre-flight: downtime risks found")
      else pure tt

  unfoldable pub run_preflight : List Workload → Exec Done
  run_preflight [] = pure tt
  run_preflight (w ∷ ws) = inspect_all (w ∷ ws) >>= λ found.
      budget_issues env ctx (w ∷ ws) (unique_namespaces (w ∷ ws)) >>= λ budgets.
      judge (found ++ budgets)
