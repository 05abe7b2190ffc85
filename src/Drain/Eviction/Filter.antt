-- ===== src/Drain/Eviction/Filter.antt =====
-- Which of the pods on the node are evicted, which block the drain, and which are only waited for.
pub mod Classes
use k8s_safed.Base.{
  String, Bool, true, false, Option, none, some, List, [], ◌∷◌, not, ◌&&◌, ◌||◌, ◌==◌, any, keep_if,
  is_some, if◌then◌else◌,
}
use k8s_safed.Base.Maps.{lookup}
use k8s_safed.Cluster.Objects.{Pod, OwnerReference}
use k8s_safed.Cluster.Env.{Env, ok, err}
use k8s_safed.Workload.{Workload, workload_key, is_terminal_pod}

unfoldable pub is_mirror_pod : Pod → Bool
is_mirror_pod pod = is_some (lookup "kubernetes.io/config.mirror" pod.annotations)

unfoldable pub is_daemon_set_pod : Pod → Bool
is_daemon_set_pod pod = any (λ (ref : OwnerReference). ref.kind == "DaemonSet") pod.owner_references

unfoldable pub is_job_pod : Pod → Bool
is_job_pod pod = any (λ (ref : OwnerReference). ref.kind == "Job") pod.owner_references

unfoldable pub has_empty_dir : Pod → Bool
has_empty_dir pod = any (λ v. v.empty_dir) pod.volumes

-- `len(pod.OwnerReferences) == 0`
abbrev no_owner : List OwnerReference → Bool
no_owner [] = true
no_owner (ref ∷ refs) = false

unfoldable pub is_standalone : Pod → Bool
is_standalone pod = no_owner pod.owner_references

module _ (skip_daemon_sets force delete_empty_dir : Bool) where
  -- The body of the loop of `filterEvictable`: whether the pod is appended.
  unfoldable pub is_evictable : Pod → Bool
  is_evictable pod =
      if is_some pod.deletion_timestamp
      then false
      else if is_terminal_pod pod
      then false
      else if is_mirror_pod pod
      then false
      else if is_daemon_set_pod pod && skip_daemon_sets
      then false
      else if has_empty_dir pod && (not delete_empty_dir && not force)
      then false
      else if is_standalone pod && not force
      then false
      else if is_job_pod pod && not force
      then false
      else true

  unfoldable pub filter_evictable : List Pod → List Pod
  filter_evictable = keep_if is_evictable

  -- The body of the loop of `blockedEvictionPods`: the reason, if the pod is appended.
  unfoldable pub blocked_reason : Pod → Option String
  blocked_reason pod =
      if is_some pod.deletion_timestamp || (is_terminal_pod pod || is_mirror_pod pod)
      then none
      else if is_daemon_set_pod pod && skip_daemon_sets
      then none
      else if is_standalone pod && not force
      then some "standalone pods require --force"
      else if is_job_pod pod && not force
      then some "Job-owned pods require --force"
      else if has_empty_dir pod && (not delete_empty_dir && not force)
      then some "emptyDir pods require --delete-emptydir-data or --force"
      else none

  append_blocked : Pod → Option String → List (Pod × String) → List (Pod × String)
  append_blocked pod none rest = rest
  append_blocked pod (some reason) rest = (pod, reason) ∷ rest

  unfoldable pub blocked_eviction_pods : List Pod → List (Pod × String)
  unfolding append_blocked
  blocked_eviction_pods [] = []
  blocked_eviction_pods (pod ∷ pods) =
      append_blocked pod (blocked_reason pod) (blocked_eviction_pods pods)

-- The body of the loop of `podsPendingDeletion`.
unfoldable pub is_pending_deletion : Bool → Pod → Bool
is_pending_deletion skip_daemon_sets pod =
    if not (is_some pod.deletion_timestamp) || (is_terminal_pod pod || is_mirror_pod pod)
    then false
    else if is_daemon_set_pod pod && skip_daemon_sets
    then false
    else true

unfoldable pub pods_pending_deletion : Bool → List Pod → List Pod
pods_pending_deletion skip_daemon_sets = keep_if (is_pending_deletion skip_daemon_sets)

module _ (env : Env) where
  -- Whether the workload is in the namespace of the pod and its selector selects it.
  unfoldable pub protects : Workload → Pod → Bool
  protects w pod = if not (pod.namespace == w.namespace) then false else elim w.selector [
    | none ↦ false
    | some sel ↦ elim (env.as_selector sel) [
      | err e ↦ false
      | ok selector ↦ selector.matches pod.labels
    ]
  ]

  -- The subject of the first workload that protects the pod: `none` for the empty text.
  unfoldable pub protected_workload_for_pod : List Workload → Pod → Option String
  protected_workload_for_pod [] pod = none
  protected_workload_for_pod (w ∷ protected) pod =
      if protects w pod then some (workload_key w) else protected_workload_for_pod protected pod

  abbrev no_workload : List Workload → Bool
  no_workload [] = true
  no_workload (w ∷ ws) = false

  unfoldable pub exclude_protected_pods : List Workload → List Pod → List Pod
  unfolding protected_workload_for_pod
  exclude_protected_pods protected pods =
      if no_workload protected
      then pods
      else keep_if (λ pod. not (is_some (protected_workload_for_pod protected pod))) pods
