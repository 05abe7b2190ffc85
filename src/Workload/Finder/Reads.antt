-- ===== src/Workload/Finder/Reads.antt =====
-- The finder only reads.
use k8s_safed.Base.{Option, none, some, inl, inr, String, List, [], ◌∷◌, Bool-cases, Option-cases}
use k8s_safed.Base.Maps.{lookup}
use k8s_safed.Base.Text.{slash2, slash3}
use k8s_safed.Cluster.Objects.{Pod, OwnerReference, ReplicaSet}
use k8s_safed.Cluster.Calls.{Context}
use k8s_safed.Cluster.Env.{Env}
use k8s_safed.Cluster.Exec.{World}
use k8s_safed.Cluster.Exec.Keeps.{Keeps, keeps_rules, Keeps-bind}
use k8s_safed.Cluster.Reads.{
  ReadClosed, list_pods-Keeps, get_replica_set-Keeps, get_deployment-Keeps, get_stateful_set-Keeps,
}
use k8s_safed.Workload.{Workload, is_terminal_pod}
use k8s_safed.Workload.Finder.{
  Finder, note_workload, fetch_deployment, resolve_deployment, fetch_stateful_set,
  resolve_stateful_set, through_owner, through_replica_set, resolve_replica_set, resolve_reference,
  resolve_owner, resolve_pods, find_for_node,
}

module _ {P : World → Type 0} (closed : ReadClosed P) (env : Env) (ctx : Context) where
  fetch_deployment-Keeps :
      (f : Finder) (ns : String) (ref : OwnerReference)
      → Keeps P (fetch_deployment env ctx f ns ref)
  unfolding fetch_deployment
  fetch_deployment-Keeps f ns ref = search (keeps_rules, get_deployment-Keeps closed env)

  resolve_deployment-Keeps :
      (f : Finder) (ns : String) (ref : OwnerReference)
      → Keeps P (resolve_deployment env ctx f ns ref)
  unfolding resolve_deployment
  resolve_deployment-Keeps f ns ref =
      elim (Option-cases (lookup (slash3 "Deployment" ns ref.name) f.wl_cache)) [
        | inl new ↦ rw (new, resolve_deployment) (fetch_deployment-Keeps f ns ref)
        | inr (w, old) ↦ rw (old, resolve_deployment) (search keeps_rules)
      ]

  fetch_stateful_set-Keeps :
      (f : Finder) (ns : String) (ref : OwnerReference)
      → Keeps P (fetch_stateful_set env ctx f ns ref)
  unfolding fetch_stateful_set
  fetch_stateful_set-Keeps f ns ref = search (keeps_rules, get_stateful_set-Keeps closed env)

  resolve_stateful_set-Keeps :
      (f : Finder) (ns : String) (ref : OwnerReference)
      → Keeps P (resolve_stateful_set env ctx f ns ref)
  unfolding resolve_stateful_set
  resolve_stateful_set-Keeps f ns ref =
      elim (Option-cases (lookup (slash3 "StatefulSet" ns ref.name) f.wl_cache)) [
        | inl new ↦ rw (new, resolve_stateful_set) (fetch_stateful_set-Keeps f ns ref)
        | inr (w, old) ↦ rw (old, resolve_stateful_set) (search keeps_rules)
      ]

  through_owner-Keeps :
      (f : Finder) (ns : String) (o : Option OwnerReference)
      → Keeps P (through_owner env ctx f ns o)
  unfolding through_owner
  through_owner-Keeps f ns none = search keeps_rules
  through_owner-Keeps f ns (some ref) = search (keeps_rules, resolve_deployment-Keeps)

  through_replica_set-Keeps :
      (f : Finder) (ns : String) (ref : OwnerReference) (rs : ReplicaSet)
      → Keeps P (through_replica_set env ctx f ns ref rs)
  unfolding through_replica_set
  through_replica_set-Keeps f ns ref rs = search (keeps_rules, through_owner-Keeps)

  resolve_replica_set-Keeps :
      (f : Finder) (ns : String) (ref : OwnerReference)
      → Keeps P (resolve_replica_set env ctx f ns ref)
  unfolding resolve_replica_set
  resolve_replica_set-Keeps f ns ref =
      elim (Option-cases (lookup (slash2 ns ref.name) f.rs_cache)) [
        | inl new ↦
            rw (new, resolve_replica_set)
              (search (keeps_rules, get_replica_set-Keeps closed env, through_replica_set-Keeps))
        | inr (rs, old) ↦ rw (old, resolve_replica_set) (through_replica_set-Keeps f ns ref rs)
      ]

  resolve_reference-Keeps :
      (f : Finder) (ns : String) (o : Option OwnerReference)
      → Keeps P (resolve_reference env ctx f ns o)
  unfolding resolve_reference
  resolve_reference-Keeps f ns none = search keeps_rules
  resolve_reference-Keeps f ns (some ref) =
      search (keeps_rules, resolve_replica_set-Keeps, resolve_stateful_set-Keeps)

  resolve_pods-Keeps :
      (f : Finder) (acc : List String × List Workload) (pods : List Pod)
      → Keeps P (resolve_pods env ctx f acc pods)
  unfolding resolve_pods resolve_owner
  resolve_pods-Keeps f acc [] = search keeps_rules
  resolve_pods-Keeps f acc (pod ∷ pods) = elim (Bool-cases (is_terminal_pod pod)) [
    | inl gone ↦ rw (gone, resolve_pods) (resolve_pods-Keeps f acc pods)
    | inr live ↦
        rw (live, resolve_pods)
          (Keeps-bind _ _ (search (keeps_rules, resolve_reference-Keeps))
            (λ r. resolve_pods-Keeps r.1 (note_workload acc r.0) pods))
  ]

  pub find_for_node-Keeps : (node_name : String) → Keeps P (find_for_node env ctx node_name)
  unfolding find_for_node
  find_for_node-Keeps node_name =
      search (keeps_rules, list_pods-Keeps closed env, resolve_pods-Keeps)
