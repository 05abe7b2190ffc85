-- ===== src/Drain/Eviction/Remaining/Cleared.antt =====
-- What is true of the pods of the node when `evict_remaining` returns without an error.
use k8s_safed.Base.{
  ◌≡◌, refl, sym, ◌∙◌, ◌⊎◌, inl, inr, String, Bool, true, false, List, [], ◌∷◌, arith, All,
  All-mono, All-and, All-of_kept,
}
use k8s_safed.Base.Text.{append_text}
use k8s_safed.Cluster.Objects.{Pod}
use k8s_safed.Cluster.Calls.{Context, History, with_timeout}
use k8s_safed.Cluster.Env.{Env, ok}
use k8s_safed.Cluster.Exec.{World, raise}
use k8s_safed.Cluster.Exec.Meets.{Post-ok, Meets}
use k8s_safed.Cluster.Exec.Since.{Grown, same, grown}
use k8s_safed.Cluster.Poll.{Poller}
use k8s_safed.Workload.{Workload}
use k8s_safed.Drain.Options.{Options, pod_vacate_timeout}
use k8s_safed.Drain.Eviction.Filter.{
  blocked_reason, blocked_eviction_pods, filter_evictable, is_evictable, pods_pending_deletion,
  is_pending_deletion,
}
use k8s_safed.Drain.Eviction.Filter.Classes.{is_exempt, count_blocked, not_blocked-cases, unblocked}
use k8s_safed.Drain.Eviction.Deletion.Observed.{GoneWithUid}
use k8s_safed.Drain.Eviction.Remaining.{evict_candidates, guard_blocked, evict_remaining}
use k8s_safed.Drain.Eviction.Remaining.Targets.{filter_evictable-IsTarget}
use k8s_safed.Drain.Eviction.Remaining.Safety.{
  after_listing, candidates, blocked, evict_remaining_lem,
}
use k8s_safed.Drain.Eviction.Remaining.Dealt.{Dealt, on_evictable, evict_all-Grown, keep_if-Listed}

module _ (skip_daemon_sets force delete_empty_dir : Bool) (P : Pod → Type 0) where
  abbrev ExemptOr : Pod → Type 0
  ExemptOr pod = (is_exempt skip_daemon_sets pod ≡ true) ⊎ P pod

  one_pod :
      (pod : Pod)
      → count_blocked (blocked_reason skip_daemon_sets force delete_empty_dir pod) ≡ 0
      → (is_pending_deletion skip_daemon_sets pod ≡ true → P pod)
      → (is_evictable skip_daemon_sets force delete_empty_dir pod ≡ true → P pod)
      → ExemptOr pod
  one_pod pod free pending evicted =
      elim (not_blocked-cases skip_daemon_sets force delete_empty_dir pod free) [
        | inl exempt ↦ inl exempt
        | inr (inl yes') ↦ inr (pending yes')
        | inr (inr yes') ↦ inr (evicted yes')
      ]

  each_pod :
      (pods : List Pod)
      → blocked_eviction_pods skip_daemon_sets force delete_empty_dir pods ≡ []
      → All P (pods_pending_deletion skip_daemon_sets pods)
      → All P (filter_evictable skip_daemon_sets force delete_empty_dir pods)
      → All ExemptOr pods
  unfolding pods_pending_deletion filter_evictable
  each_pod pods free pending evicted =
      All-mono _ _ pods (λ p h. one_pod p h.0 h.1.0 h.1.1)
        (All-and _ _ pods (unblocked skip_daemon_sets force delete_empty_dir pods free)
          (All-and _ _ pods (All-of_kept P _ pods pending) (All-of_kept P _ pods evicted)))

module _ (env : Env) (opts : Options) (ctx : Context) (protected : List Workload) (pods : List Pod)
    (before now : History) where
  -- The pod is left alone, or a candidate with its UID has gone between the two histories.
  abbrev pub IsCleared : Pod → Type 0
  IsCleared pod =
      (is_exempt opts.skip_daemon_sets pod ≡ true)
      ⊎ GoneWithUid env (with_timeout (pod_vacate_timeout opts) ctx) before now
          (candidates env opts protected pods) pod

module _ (env : Env) (poller : Poller) (opts : Options) (ctx : Context) (protected : List Workload)
    (pods : List Pod) (w w' : World) (wet : opts.dry_run ≡ false) where
  abbrev listed_pods : List Pod
  listed_pods = candidates env opts protected pods

  evict_candidates-Dealt :
      Meets
        (λ u. Grown w.calls u.calls)
        (λ _.
          Dealt env poller opts ctx w.calls wet listed_pods
            (pods_pending_deletion opts.skip_daemon_sets listed_pods)
            (filter_evictable opts.skip_daemon_sets opts.force opts.delete_empty_dir listed_pods))
        (λ _ _. Unit {0})
        (evict_candidates env poller opts ctx listed_pods)
  unfolding evict_candidates pods_pending_deletion filter_evictable
  evict_candidates-Dealt =
      on_evictable env poller opts ctx w.calls wet listed_pods _ _ (keep_if-Listed _ listed_pods)
        (keep_if-Listed _ listed_pods)
        (evict_all-Grown env poller opts ctx w.calls wet listed_pods protected pods _
          (filter_evictable-IsTarget env opts protected pods))

  past_guard :
      (found : List (Pod × String)) (u : World)
      → guard_blocked env poller opts ctx found (evict_candidates env poller opts ctx listed_pods) u
        ≡ (ok tt, w')
      → (found ≡ []) × (evict_candidates env poller opts ctx listed_pods u ≡ (ok tt, w'))
  unfolding guard_blocked raise
  past_guard [] u returned = (refl, returned)
  past_guard ((pod, reason) ∷ found) u returned = absurd (ground arith)

  pub evict_remaining_clears :
      env.pods_of w.calls ctx "" "" (append_text "spec.nodeName=" opts.node_name) ≡ ok pods
      → evict_remaining env poller opts ctx protected w ≡ (ok tt, w')
      → All (IsCleared env opts ctx protected pods w.calls w'.calls) listed_pods
  evict_remaining_clears listed returned =
      let (free, ran) =
        past_guard (blocked env opts protected pods) (after_listing opts ctx w)
          (sym (evict_remaining_lem env poller opts ctx protected pods w listed) ∙ returned) in
      let dealt =
        Post-ok _ (λ _ _. Unit {0}) ran
          (evict_candidates-Dealt.at (after_listing opts ctx w) (grown _ (same refl))) in
      each_pod opts.skip_daemon_sets opts.force opts.delete_empty_dir _ listed_pods free dealt.0
        dealt.1
