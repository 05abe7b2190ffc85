-- ===== src/Drain/Preflight/Budgets.antt =====
-- The PodDisruptionBudgets that pkg/drain/preflight.go looks at.
use k8s_safed.Base.{
  String, Bool, true, false, Option, none, some, List, [], ◌∷◌, ◌++◌, not, ◌&&◌, ◌==◌, any, keep_if,
  if◌then◌else◌,
}
use k8s_safed.Base.Int.{pos, int_eq}
use k8s_safed.Base.Maps.{Map, lookup}
use k8s_safed.Base.Text.{slash3}
use k8s_safed.Cluster.Objects.{LabelSelector, Selector, Requirement, PodDisruptionBudget}
use k8s_safed.Cluster.Calls.{Context}
use k8s_safed.Cluster.Env.{Env, Result, ok, err}
use k8s_safed.Cluster.Exec.{Exec, pure, ◌>>=◌, try_catch}
use k8s_safed.Cluster.Requests.{list_budgets}
use k8s_safed.Workload.{Workload}

-- preflightIssue
pub record Issue : Type 0 where
  pub subject : String
  pub text : String
  pub risk : Bool

unfoldable pub unique_from : List String → List Workload → List String
unique_from seen [] = []
unique_from seen (w ∷ ws) =
    let again = any (λ ns. ns == w.namespace) seen in
    let rest = unique_from (w.namespace ∷ seen) ws in
    let skipped = unique_from seen ws in if again then skipped else w.namespace ∷ rest

unfoldable pub unique_namespaces : List Workload → List String
unfolding unique_from
unique_namespaces ws = unique_from [] ws

unfoldable pub workloads_in_namespace : List Workload → String → List Workload
workloads_in_namespace ws namespace = keep_if (λ w. w.namespace == namespace) ws

-- A requirement of the budget that a label of the workload breaks.
abbrev breaks : Map String → Requirement → Bool
breaks labels req = elim (lookup req.key labels) [
  | none ↦ false
  | some value ↦ not (req.matches ((req.key, value) ∷ []))
]

unfoldable pub selector_may_match_workload : Selector → LabelSelector → Bool
selector_may_match_workload selector workload_selector =
    if selector.matches workload_selector.match_labels
    then true
    else not (any (breaks workload_selector.match_labels) selector.requirements)

abbrev may_match : Selector → Option LabelSelector → Bool
may_match selector none = false
may_match selector (some sel) = selector_may_match_workload selector sel

abbrev parsed_may_select : Result Selector → List Workload → Bool
parsed_may_select (err e) ws = true
parsed_may_select (ok selector) ws =
    if selector.is_empty then true else any (λ w. may_match selector w.selector) ws

unfoldable pub pdb_may_select_workload : Env → Option LabelSelector → List Workload → Bool
pdb_may_select_workload env none ws = false
pdb_may_select_workload env (some sel) ws = parsed_may_select (env.as_selector sel) ws

module _ (env : Env) (ctx : Context) (ws : List Workload) where
  abbrev blocks : String → PodDisruptionBudget → Bool
  blocks ns pdb =
      int_eq pdb.disruptions_allowed (pos 0)
      && pdb_may_select_workload env pdb.selector (workloads_in_namespace ws ns)

  unfoldable pub blocking_issues : String → List PodDisruptionBudget → List Issue
  blocking_issues ns [] = []
  blocking_issues ns (pdb ∷ pdbs) =
      let rest = blocking_issues ns pdbs in
      if blocks ns pdb
      then record {
        subject = slash3 "PodDisruptionBudget" ns pdb.name;
        text = "0 disruptions currently allowed";
        risk = false;
      }
        ∷ rest
      else rest

  -- The loop over the namespaces. A list that fails is reported, and skipped.
  unfoldable pub budget_issues : List String → Exec (List Issue)
  budget_issues [] = pure []
  budget_issues (ns ∷ namespaces) =
      try_catch (list_budgets env ctx ns) (λ pdbs. pure (blocking_issues ns pdbs)) (λ e. pure [])
      >>= λ found. budget_issues namespaces >>= λ rest. pure (found ++ rest)
