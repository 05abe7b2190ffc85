-- ===== src/Drain/Eviction/Remaining/Safety.antt =====
-- The two safety properties of `evict_remaining`: it evicts targets only, and it evicts nothing
-- while a pod on the node may not be evicted.
use k8s_safed.Base.{
  Some, inl, inr, none, [], is_some, Bool-cases, ◌≡◌, refl, ◌∙◌, String, false, List, ◌∷◌, arith,
}
use k8s_safed.Base.Text.{append_text}
use k8s_safed.Cluster.Objects.{Pod}
use k8s_safed.Cluster.Calls.{Context, Call, Request}
use k8s_safed.Cluster.Env.{Env, ok, err, message}
use k8s_safed.Cluster.Exec.{World, raise}
use k8s_safed.Cluster.Exec.Adds.{Adds, more, nothing}
use k8s_safed.Cluster.Exec.Steps.{bind-ok, in_context-ok, ask_lem}
use k8s_safed.Cluster.Poll.{Poller}
use k8s_safed.Workload.{Workload}
use k8s_safed.Drain.Options.{Options}
use k8s_safed.Drain.Eviction.Filter.{
  blocked_eviction_pods, exclude_protected_pods, protected_workload_for_pod,
}
use k8s_safed.Drain.Eviction.Filter.Classes.{NeedsFlag, NeedsFlag-first}
use k8s_safed.Drain.Eviction.Remaining.{evict_candidates, guard_blocked, evict_remaining}
use k8s_safed.Drain.Eviction.Remaining.Targets.{
  IsEviction, evict_candidates-Sound, guard_blocked-Sound, filter_evictable-IsTarget,
}

-- The world after the pods of the node were listed.
abbrev pub after_listing : Options → Context → World → World
after_listing opts ctx w = record w {
  calls =
      Call.request ctx (Request.list_pods "" "" (append_text "spec.nodeName=" opts.node_name))
      ∷ w.calls;
}

module _ (env : Env) (opts : Options) (protected : List Workload) (pods : List Pod) where
  abbrev pub candidates : List Pod
  candidates = exclude_protected_pods env protected pods

  abbrev pub blocked : List (Pod × String)
  blocked =
      blocked_eviction_pods opts.skip_daemon_sets opts.force opts.delete_empty_dir
        (exclude_protected_pods env protected pods)

module _ (env : Env) (Q : Pod → Type 0) where
  kept-Some :
      (w : Workload) (ws : List Workload) (pods : List Pod)
      → Some (λ p. Q p × (protected_workload_for_pod env (w ∷ ws) p ≡ none)) pods
      → Some Q (exclude_protected_pods env (w ∷ ws) pods)
  unfolding exclude_protected_pods
  kept-Some w ws [] s = s
  kept-Some w ws (p ∷ pods) (inl h) = rw h.1 (inl h.0)
  kept-Some w ws (p ∷ pods) (inr s) =
      elim (Bool-cases (is_some (protected_workload_for_pod env (w ∷ ws) p))) [
        | inl taken ↦ rw taken (kept-Some w ws pods s)
        | inr left ↦ rw left (inr (kept-Some w ws pods s))
      ]

  all-Some :
      (pods : List Pod)
      → Some (λ p. Q p × (protected_workload_for_pod env [] p ≡ none)) pods
      → Some Q pods
  all-Some [] s = s
  all-Some (p ∷ pods) (inl h) = inl h.0
  all-Some (p ∷ pods) (inr s) = inr (all-Some pods s)

  unprotected-Some :
      (protected : List Workload) (pods : List Pod)
      → Some (λ p. Q p × (protected_workload_for_pod env protected p ≡ none)) pods
      → Some Q (exclude_protected_pods env protected pods)
  unfolding exclude_protected_pods
  unprotected-Some [] pods s = all-Some pods s
  unprotected-Some (w ∷ ws) pods s = kept-Some w ws pods s

module _ (env : Env) (poller : Poller) (opts : Options) (ctx : Context) (protected : List Workload)
    (pods : List Pod) (w : World)
    (listed : env.pods_of w.calls ctx "" "" (append_text "spec.nodeName=" opts.node_name)
      ≡ ok pods) where
  pub evict_remaining_lem :
      evict_remaining env poller opts ctx protected w
      ≡ guard_blocked env poller opts ctx
          (blocked env opts protected pods)
          (evict_candidates env poller opts ctx (candidates env opts protected pods))
          (after_listing opts ctx w)
  unfolding evict_remaining
  evict_remaining_lem = bind-ok _ _ w (in_context-ok _ _ w (ask_lem _ _ w listed))

  -- When the pods of the node were listed, all that `evict_remaining` does besides reading and
  -- waiting is to evict or delete pods of that list which no filtered workload protects and which
  -- the flags allow, deletions only of pods with no owner under ForceDeleteStandalone, and neither
  -- in a dry run.
  pub evict_remaining_targets :
      Adds
        (IsEviction env opts protected pods)
        w.calls
        (evict_remaining env poller opts ctx protected w).1
  evict_remaining_targets = rw evict_remaining_lem (
      (guard_blocked-Sound env opts protected pods w.calls poller ctx
          (blocked env opts protected pods) _
          (evict_candidates-Sound env opts protected pods w.calls poller ctx
            (candidates env opts protected pods)
            (filter_evictable-IsTarget env opts protected pods))).at
        (after_listing opts ctx w) (more _ tt (nothing refl)))

  first_fails :
      {pod : Pod} {reason : String} {rest : List (Pod × String)}
      → opts.dry_run ≡ false
      → blocked env opts protected pods ≡ (pod, reason) ∷ rest
      → evict_remaining env poller opts ctx protected w ≡ (
        err (message (append_text "remaining pod cannot be evicted: " reason)),
        after_listing opts ctx w,
      )
  unfolding guard_blocked raise
  first_fails wet e = evict_remaining_lem ∙ rw (e, guard_blocked) (ground arith)

  -- When some pod of the node that no filtered workload protects may not be evicted with the flags
  -- that are set, though it is neither exempt nor being deleted, and this is no dry run, then the
  -- drain fails with a reason, and the listing was the only call: nothing has been evicted.
  pub evict_remaining_fails :
      opts.dry_run ≡ false
      → Some
          (λ p.
            NeedsFlag opts.skip_daemon_sets opts.force opts.delete_empty_dir p
            × (protected_workload_for_pod env protected p ≡ none))
          pods
      → (reason : String) × (evict_remaining env poller opts ctx protected w ≡ (
        err (message (append_text "remaining pod cannot be evicted: " reason)),
        after_listing opts ctx w,
      ))
  evict_remaining_fails wet stuck =
      let (pod, reason, rest, e) =
        NeedsFlag-first opts.skip_daemon_sets opts.force opts.delete_empty_dir
          (candidates env opts protected pods) (unprotected-Some env _ protected pods stuck) in
      (reason, first_fails wet e)
