-- ===== src/Workload/Finder.antt =====
-- The Finder of pkg/workload/workload.go: from the pods of a node to the workloads that own them.
-- Its caches live for one pass, so a failed pass leaves nothing that the next one reads.
pub mod Resolve
pub mod Distinct
pub mod Reads
use k8s_safed.Base.{
  String, Bool, true, false, Option, none, some, List, [], ◌∷◌, ◌++◌, not, ◌&&◌, ◌==◌, any,
  if◌then◌else◌,
}
use k8s_safed.Base.Maps.{Map, lookup, insert}
use k8s_safed.Base.Text.{slash2, slash3, append_text}
use k8s_safed.Cluster.Objects.{OwnerReference, Pod, ReplicaSet, Deployment, StatefulSet}
use k8s_safed.Cluster.Calls.{Context}
use k8s_safed.Cluster.Env.{Env, Error}
use k8s_safed.Cluster.Exec.{Exec, pure, raise, ◌>>=◌, try_catch, in_context}
use k8s_safed.Cluster.Requests.{list_pods, get_replica_set, get_deployment, get_stateful_set}
use k8s_safed.Workload.{
  deployment, stateful_set, Workload, workload_key, is_terminal_pod, controller_owner_ref,
}
use k8s_safed.Workload.Priority.{parse_drain_priority}

pub record Finder : Type 0 where
  pub rs_cache : Map ReplicaSet
  pub wl_cache : Map Workload

abbrev pub empty_finder : Finder
empty_finder = record { rs_cache = []; wl_cache = [] }

-- What a resolution returns: the workload if there is one, and the caches.
abbrev pub Found : Type 0
Found = Option Workload × Finder

-- `ref.UID != "" && uid != ref.UID`
abbrev is_replaced : OwnerReference → String → Bool
is_replaced ref uid = not (ref.uid == "") && not (uid == ref.uid)

unfoldable pub deployment_workload : String → String → Deployment → Workload
unfolding parse_drain_priority
deployment_workload namespace name dep =
    let (priority, value, invalid) = parse_drain_priority dep.annotations in
    record {
      kind = deployment;
      namespace = namespace;
      name = name;
      uid = dep.uid;
      generation = dep.generation;
      selector = dep.selector;
      priority = priority;
      priority_annotation_value = value;
      priority_annotation_invalid = invalid;
    }

unfoldable pub stateful_set_workload : String → String → StatefulSet → Workload
unfolding parse_drain_priority
stateful_set_workload namespace name sts =
    let (priority, value, invalid) = parse_drain_priority sts.annotations in
    record {
      kind = stateful_set;
      namespace = namespace;
      name = name;
      uid = sts.uid;
      generation = sts.generation;
      selector = sts.selector;
      priority = priority;
      priority_annotation_value = value;
      priority_annotation_invalid = invalid;
    }

-- `seen[key] = struct{}{}; workloads = append(workloads, w)`, unless the key was seen.
unfoldable pub note_workload :
    List String × List Workload → Option Workload → List String × List Workload
note_workload acc none = acc
note_workload (seen, workloads) (some w) =
    if any (λ k. k == workload_key w) seen
    then (seen, workloads)
    else (workload_key w ∷ seen, workloads ++ w ∷ [])

module _ (env : Env) (ctx : Context) where
  fetch_deployment : Finder → String → OwnerReference → Exec Found
  fetch_deployment f namespace ref =
      try_catch (get_deployment env ctx namespace ref.name)
        (λ dep.
          if is_replaced ref dep.uid
          then pure (none, f)
          else let w = deployment_workload namespace ref.name dep in
            pure (
              some w,
              record f { wl_cache = insert (slash3 "Deployment" namespace ref.name) w f.wl_cache },
            ))
        (λ e.
          if env.status.is_not_found e
          then pure (none, f)
          else raise (Error.wrap "getting Deployment" e))

  unfoldable pub resolve_deployment : Finder → String → OwnerReference → Exec Found
  unfolding fetch_deployment
  resolve_deployment f namespace ref =
      elim (lookup (slash3 "Deployment" namespace ref.name) f.wl_cache) [
        | some w ↦ pure (some w, f)
        | none ↦ fetch_deployment f namespace ref
      ]

  fetch_stateful_set : Finder → String → OwnerReference → Exec Found
  fetch_stateful_set f namespace ref =
      try_catch (get_stateful_set env ctx namespace ref.name)
        (λ sts.
          if is_replaced ref sts.uid
          then pure (none, f)
          else let w = stateful_set_workload namespace ref.name sts in
            pure (
              some w,
              record f { wl_cache = insert (slash3 "StatefulSet" namespace ref.name) w f.wl_cache },
            ))
        (λ e.
          if env.status.is_not_found e
          then pure (none, f)
          else raise (Error.wrap "getting StatefulSet" e))

  unfoldable pub resolve_stateful_set : Finder → String → OwnerReference → Exec Found
  unfolding fetch_stateful_set
  resolve_stateful_set f namespace ref =
      elim (lookup (slash3 "StatefulSet" namespace ref.name) f.wl_cache) [
        | some w ↦ pure (some w, f)
        | none ↦ fetch_stateful_set f namespace ref
      ]

  -- From the owner of a ReplicaSet to a Deployment.
  through_owner : Finder → String → Option OwnerReference → Exec Found
  through_owner f namespace none = pure (none, f)
  through_owner f namespace (some dep_ref) =
      if dep_ref.kind == "Deployment"
      then resolve_deployment f namespace dep_ref
      else pure (none, f)

  -- The second half of `resolveReplicaSet`.
  through_replica_set : Finder → String → OwnerReference → ReplicaSet → Exec Found
  unfolding through_owner
  through_replica_set f namespace ref rs =
      if is_replaced ref rs.uid
      then pure (none, f)
      else through_owner f namespace (controller_owner_ref rs.owner_references)

  unfoldable pub resolve_replica_set : Finder → String → OwnerReference → Exec Found
  unfolding through_replica_set
  resolve_replica_set f namespace ref =
      let rs_key = slash2 namespace ref.name in
      elim (lookup rs_key f.rs_cache) [
        | some rs ↦ through_replica_set f namespace ref rs
        | none ↦
            try_catch (get_replica_set env ctx namespace ref.name)
              (λ rs.
                through_replica_set (record f { rs_cache = insert rs_key rs f.rs_cache }) namespace
                  ref rs)
              (λ e.
                if env.status.is_not_found e
                then pure (none, f)
                else raise (Error.wrap "getting ReplicaSet" e))
      ]

  -- The kinds DaemonSet, Job and CronJob, and all others, are not rolled.
  resolve_reference : Finder → String → Option OwnerReference → Exec Found
  resolve_reference f namespace none = pure (none, f)
  resolve_reference f namespace (some ref) =
      if ref.kind == "ReplicaSet"
      then resolve_replica_set f namespace ref
      else if ref.kind == "StatefulSet"
      then resolve_stateful_set f namespace ref
      else pure (none, f)

  unfoldable pub resolve_owner : Finder → Pod → Exec Found
  unfolding resolve_reference
  resolve_owner f pod =
      resolve_reference f pod.namespace (controller_owner_ref pod.owner_references)

  -- The loop over the pods.
  unfoldable pub resolve_pods :
      Finder → List String × List Workload → List Pod → Exec (List Workload)
  resolve_pods f acc [] = pure acc.1
  resolve_pods f acc (pod ∷ pods) = elim (is_terminal_pod pod) [
    | true ↦ resolve_pods f acc pods
    | false ↦ do
      (found, f') ← in_context "resolving owner for pod" (resolve_owner f pod)
      resolve_pods f' (note_workload acc found) pods
  ]

  unfoldable pub find_for_node : String → Exec (List Workload)
  unfolding resolve_pods
  find_for_node node_name = do
    pods ←
        in_context "listing pods on node"
          (list_pods env ctx "" "" (append_text "spec.nodeName=" node_name))
    resolve_pods empty_finder ([], []) pods
