-- ===== src/Drain/Rollout/Reads.antt =====
-- The parts of pkg/drain/rollout.go that only read.
use k8s_safed.Base.{ℕ, zero, suc, String, Option, none, some}
use k8s_safed.Cluster.Objects.{LabelSelector, Deployment}
use k8s_safed.Cluster.Calls.{Context}
use k8s_safed.Cluster.Env.{Env, Error, Result, ok, err}
use k8s_safed.Cluster.Exec.{World, Exec}
use k8s_safed.Cluster.Exec.Keeps.{Keeps, keeps_rules, Keeps-try_catch}
use k8s_safed.Cluster.Reads.{
  ReadClosed, list_pods-Keeps, list_replica_sets-Keeps, wait_or_done-Keeps,
}
use k8s_safed.Workload.{Workload}
use k8s_safed.Drain.Options.{Options}
use k8s_safed.Drain.Rollout.Selectors.{list_for_selector, new_replica_set_selector}
use k8s_safed.Drain.Rollout.BadPods.{find_bad_pod_state}
use k8s_safed.Drain.Rollout.Retry.{or_last, attempt_once, attempts, retry_transient}
use k8s_safed.Drain.Rollout.Vacate.{workload_pod_count_on_node, workload_has_pods_on_node}

module _ {P : World → Type 0} (closed : ReadClosed P) (env : Env) where
  pub find_bad_pod_state-Keeps :
      (ctx : Context) (namespace : String) (sel : Option LabelSelector)
      → Keeps P (find_bad_pod_state env ctx namespace sel)
  unfolding find_bad_pod_state
  find_bad_pod_state-Keeps ctx namespace none = search keeps_rules
  find_bad_pod_state-Keeps ctx namespace (some sel) =
      search (keeps_rules, list_pods-Keeps closed env)

  list_for_selector-Keeps :
      (ctx : Context) (dep : Deployment) (revision : String) (s : Result String)
      → Keeps P (list_for_selector env ctx dep revision s)
  unfolding list_for_selector
  list_for_selector-Keeps ctx dep revision (err e) = search keeps_rules
  list_for_selector-Keeps ctx dep revision (ok s) =
      search (keeps_rules, list_replica_sets-Keeps closed env)

  pub new_replica_set_selector-Keeps :
      (ctx : Context) (dep : Deployment) → Keeps P (new_replica_set_selector env ctx dep)
  unfolding new_replica_set_selector
  new_replica_set_selector-Keeps ctx dep = search (keeps_rules, list_for_selector-Keeps)

  pub workload_pod_count_on_node-Keeps :
      (opts : Options) (ctx : Context) (w : Workload)
      → Keeps P (workload_pod_count_on_node env opts ctx w)
  unfolding workload_pod_count_on_node
  workload_pod_count_on_node-Keeps opts ctx w = search (keeps_rules, list_pods-Keeps closed env)

  pub workload_has_pods_on_node-Keeps :
      (opts : Options) (ctx : Context) (w : Workload)
      → Keeps P (workload_has_pods_on_node env opts ctx w)
  unfolding workload_has_pods_on_node
  workload_has_pods_on_node-Keeps opts ctx w =
      search (keeps_rules, workload_pod_count_on_node-Keeps)

  module _ {A : Type 0} (opts : Options) (ctx : Context) (action : Exec A)
      (k : Keeps P action) where
    or_last-Keeps :
        (again : Exec A) (last : Error) (o : Option Error)
        → Keeps P again
        → Keeps P (or_last env opts ctx action again last o)
    unfolding or_last
    or_last-Keeps again last none h = h
    or_last-Keeps again last (some e) h = search keeps_rules

    attempts-Keeps : (n : ℕ) (last : Error) → Keeps P (attempts env opts ctx action n last)
    unfolding attempts attempt_once
    attempts-Keeps zero last = search keeps_rules
    attempts-Keeps (suc n) last =
        Keeps-try_catch _ _ _ k (λ a. search keeps_rules)
          (λ e.
            search (keeps_rules, or_last-Keeps, attempts-Keeps n, wait_or_done-Keeps closed env))

    pub retry_transient-Keeps : Keeps P (retry_transient env opts ctx action)
    unfolding retry_transient
    retry_transient-Keeps = attempts-Keeps 3 (Error.message "")
