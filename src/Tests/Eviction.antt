-- ===== src/Tests/Eviction.antt =====
-- The theorems on eviction, at the small cluster.
use k8s_safed.Base.{All}
use k8s_safed.Drain.Eviction.Filter.{is_evictable, is_pending_deletion}
use k8s_safed.Drain.Eviction.Filter.Classes.{one, count_blocked}
use k8s_safed.Base.{
  ◌≡◌, refl, inl, inr, String, ◌+◌, true, false, List, [], ◌∷◌, length, keep_if, arith,
}
use k8s_safed.Cluster.Objects.{Pod}
use k8s_safed.Cluster.Calls.{caller}
use k8s_safed.Cluster.Exec.Adds.{Adds}
use k8s_safed.Cluster.Env.{err, message}
use k8s_safed.Base.Text.{append_text}
use k8s_safed.Drain.Options.{Options, pdb_retry_interval}
use k8s_safed.Drain.Eviction.Filter.{
  protected_workload_for_pod, pods_pending_deletion, blocked_eviction_pods, filter_evictable,
  blocked_reason, is_mirror_pod, is_daemon_set_pod, is_standalone,
}
use k8s_safed.Base.Maps.{lookup}
use k8s_safed.Workload.{is_terminal_pod}
use k8s_safed.Drain.Eviction.Filter.Classes.{is_exempt, classes_partition}
use k8s_safed.Drain.Eviction.Retry.{evict_with_pdb_retry}
use k8s_safed.Drain.Eviction.Retry.Backoff.{InTurn, evict_with_pdb_retry-InTurn}
use k8s_safed.Drain.Eviction.Remaining.{evict_remaining}
use k8s_safed.Drain.Eviction.Remaining.Targets.{IsEviction}
use k8s_safed.Drain.Eviction.Remaining.Safety.{
  evict_remaining_targets, evict_remaining_fails, after_listing,
}
use k8s_safed.Tests.Cluster.{env, poller, options, start, web_pod, agent_pod, lone_pod}

abbrev pods : List Pod
pods = web_pod ∷ agent_pod ∷ lone_pod ∷ []

abbrev forced : Options
forced = record options { force = true }

evict_remaining_targets_example :
    Adds (IsEviction env forced [] pods) [] (evict_remaining env poller forced caller [] start).1
evict_remaining_targets_example =
    evict_remaining_targets env poller forced caller [] pods start refl

evict_remaining_fails_example :
    (reason : String) × (evict_remaining env poller options caller [] start ≡ (
      err (message (append_text "remaining pod cannot be evicted: " reason)),
      after_listing options caller start,
    ))
unfolding is_terminal_pod is_mirror_pod lookup is_daemon_set_pod is_standalone
    protected_workload_for_pod
evict_remaining_fails_example =
    evict_remaining_fails env poller options caller [] pods start refl refl (
      inr (
        inr (
          inl (record { live = refl; evictable = refl; unforced = refl; lacks = inl refl }, refl))))

classes_partition_example :
    All
      (λ pod.
        one (is_exempt true pod)
          + one (is_pending_deletion true pod)
          + count_blocked (blocked_reason true false false pod)
          + one (is_evictable true false false pod)
        ≡ 1)
      pods
    × (length (keep_if (is_exempt true) pods)
          + length (pods_pending_deletion true pods)
          + length (blocked_eviction_pods true false false pods)
          + length (filter_evictable true false false pods)
        ≡ 3)
classes_partition_example = classes_partition true false false pods

evict_with_pdb_retry-InTurn_example :
    InTurn options web_pod
      (pdb_retry_interval options)
      []
      (evict_with_pdb_retry env options caller web_pod start).1.calls
unfolding pdb_retry_interval
evict_with_pdb_retry-InTurn_example =
    evict_with_pdb_retry-InTurn env options caller web_pod start (omega arith, omega arith)
