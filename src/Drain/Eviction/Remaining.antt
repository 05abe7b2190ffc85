-- ===== src/Drain/Eviction/Remaining.antt =====
-- `evictRemaining` of pkg/drain/eviction.go.
pub mod Targets
pub mod Safety
pub mod Dealt
pub mod Cleared
use k8s_safed.Base.{String, List, [], ◌∷◌, ◌++◌, ◌&&◌, if◌then◌else◌, some}
use k8s_safed.Base.Int.{pos}
use k8s_safed.Base.Text.{append_text}
use k8s_safed.Cluster.Objects.{Pod}
use k8s_safed.Cluster.Calls.{Context}
use k8s_safed.Cluster.Env.{Env, message, wrap}
use k8s_safed.Cluster.Exec.{Exec, Done, pure, raise, ◌>>=◌, ◌>>◌, try_catch, in_context}
use k8s_safed.Cluster.Requests.{list_pods, delete_pod}
use k8s_safed.Cluster.Poll.{Poller}
use k8s_safed.Workload.{Workload}
use k8s_safed.Drain.Options.{Options, pod_vacate_timeout}
use k8s_safed.Drain.Eviction.Filter.{
  filter_evictable, blocked_eviction_pods, pods_pending_deletion, exclude_protected_pods,
  is_standalone,
}
use k8s_safed.Drain.Eviction.Retry.{evict_with_pdb_retry}
use k8s_safed.Drain.Eviction.Deletion.{wait_for_pods_deleted}

module _ (env : Env) (opts : Options) (ctx : Context) where
  -- A direct delete with no grace period, past the budgets.
  unfoldable pub force_delete : Pod → Exec Done
  force_delete pod =
      try_catch (delete_pod env ctx pod.namespace pod.name (some (pos 0))) pure
        λ e. if env.status.is_not_found e then pure tt else raise (wrap "force-deleting pod" e)

  -- The body of the loop over the evictable pods.
  unfoldable pub evict_one : Pod → Exec Done
  unfolding force_delete
  evict_one pod =
      if opts.dry_run
      then pure tt
      else if opts.force_delete_standalone && is_standalone pod
      then force_delete pod
      else evict_with_pdb_retry env opts ctx pod

  unfoldable pub evict_all : List Pod → Exec Done
  evict_all [] = pure tt
  evict_all (pod ∷ pods) = evict_one pod >> evict_all pods

abbrev pub on_empty {ℓ κ} : {A : Type ℓ} {B : Type κ} → List A → B → B → B
on_empty [] x y = x
on_empty (a ∷ as') x y = y

module _ (env : Env) (poller : Poller) (opts : Options) (ctx : Context) where
  -- Nothing was evicted in a dry run, and nothing is waited for.
  unfoldable pub wait_unless_dry_run : List Pod → Exec Done
  wait_unless_dry_run pods =
      if opts.dry_run
      then pure tt
      else wait_for_pods_deleted env poller opts ctx pods (pod_vacate_timeout opts)

  -- What is done with the candidates when none of them blocks the drain.
  unfoldable pub evict_candidates : List Pod → Exec Done
  unfolding evict_all wait_unless_dry_run
  evict_candidates candidates =
      let evictable =
        filter_evictable opts.skip_daemon_sets opts.force opts.delete_empty_dir candidates in
      let waiting = pods_pending_deletion opts.skip_daemon_sets candidates in
      on_empty evictable (on_empty waiting (pure tt) (wait_unless_dry_run waiting))
        (evict_all env opts ctx evictable >> wait_unless_dry_run (waiting ++ evictable))

  -- A blocked pod fails the drain, and in a dry run it is only reported.
  unfoldable pub guard_blocked : List (Pod × String) → Exec Done → Exec Done
  guard_blocked [] rest = rest
  guard_blocked ((pod, reason) ∷ blocked) rest =
      if opts.dry_run
      then rest
      else raise (message (append_text "remaining pod cannot be evicted: " reason))

  unfoldable pub evict_remaining : List Workload → Exec Done
  unfolding evict_candidates guard_blocked
  evict_remaining protected = do
    pods ←
        in_context "listing remaining pods"
          (list_pods env ctx "" "" (append_text "spec.nodeName=" opts.node_name))
    let candidates = exclude_protected_pods env protected pods
    guard_blocked
        (blocked_eviction_pods opts.skip_daemon_sets opts.force opts.delete_empty_dir candidates)
        (evict_candidates candidates)
