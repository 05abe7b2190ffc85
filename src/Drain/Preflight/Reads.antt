-- ===== src/Drain/Preflight/Reads.antt =====
-- The preflight only reads.
use k8s_safed.Base.{String, List, [], ◌∷◌}
use k8s_safed.Cluster.Calls.{Context}
use k8s_safed.Cluster.Env.{Env, Error}
use k8s_safed.Cluster.Exec.{World}
use k8s_safed.Cluster.Exec.Keeps.{Keeps, keeps_rules, Keeps-bind, Keeps-pure}
use k8s_safed.Cluster.Reads.{
  ReadClosed, get_deployment-Keeps, get_stateful_set-Keeps, list_budgets-Keeps,
}
use k8s_safed.Workload.{Kind, deployment, stateful_set, other, Workload}
use k8s_safed.Drain.Options.{Options}
use k8s_safed.Drain.Preflight.{unless_strict, inspect, inspect_all, judge, run_preflight}
use k8s_safed.Drain.Preflight.Budgets.{Issue, budget_issues}

module _ {P : World → Type 0} (closed : ReadClosed P) (env : Env) (opts : Options)
    (ctx : Context) where
  unless_strict-Keeps : (e : Error) → Keeps P (unless_strict env opts ctx e)
  unfolding unless_strict
  unless_strict-Keeps e = search keeps_rules

  inspect-Keeps : (k : Kind) (w : Workload) → Keeps P (inspect env opts ctx k w)
  unfolding inspect
  inspect-Keeps deployment w =
      search (keeps_rules, get_deployment-Keeps closed env, unless_strict-Keeps)
  inspect-Keeps stateful_set w =
      search (keeps_rules, get_stateful_set-Keeps closed env, unless_strict-Keeps)
  inspect-Keeps (other k) w = search keeps_rules

  inspect_all-Keeps : (ws : List Workload) → Keeps P (inspect_all env opts ctx ws)
  unfolding inspect_all
  inspect_all-Keeps [] = search keeps_rules
  inspect_all-Keeps (w ∷ ws) =
      Keeps-bind _ _ (inspect-Keeps w.kind w)
        (λ found. Keeps-bind _ _ (inspect_all-Keeps ws) (λ rest. Keeps-pure _))

  budget_issues-Keeps :
      (ws : List Workload) (namespaces : List String)
      → Keeps P (budget_issues env ctx ws namespaces)
  unfolding budget_issues
  budget_issues-Keeps ws [] = search keeps_rules
  budget_issues-Keeps ws (ns ∷ namespaces) =
      Keeps-bind _ _ (search (keeps_rules, list_budgets-Keeps closed env))
        (λ found. Keeps-bind _ _ (budget_issues-Keeps ws namespaces) (λ rest. Keeps-pure _))

  judge-Keeps : (issues : List Issue) → Keeps P (judge env opts ctx issues)
  unfolding judge
  judge-Keeps issues = search keeps_rules

  pub run_preflight-Keeps : (ws : List Workload) → Keeps P (run_preflight env opts ctx ws)
  unfolding run_preflight
  run_preflight-Keeps [] = search keeps_rules
  run_preflight-Keeps (w ∷ ws) =
      search (keeps_rules, inspect_all-Keeps, budget_issues-Keeps, judge-Keeps)
