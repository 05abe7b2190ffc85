-- ===== src/Drain/Eviction/Remaining/Targets.antt =====
-- What `evict_remaining` may do to the cluster: evict or delete pods that the flags allow and no
-- filtered workload protects, and nothing else.
use k8s_safed.Base.{
  ◌≡◌, refl, String, Bool, true, false, Option, none, some, List, [], ◌∷◌, ◌++◌, ◌&&◌, arith, All,
  All-mono, All-Listed, All-keep_if_and, Listed, ℕ, zero, suc,
}
use k8s_safed.Base.Int.{pos}
use k8s_safed.Cluster.Objects.{Pod, Duration}
use k8s_safed.Cluster.Calls.{Context, Call, History, Request}
use k8s_safed.Cluster.Env.{Env, Error}
use k8s_safed.Cluster.Exec.{World, Exec, Done, pure}
use k8s_safed.Cluster.Exec.Keeps.{Keeps, keeps_rules, Keeps-if, Keeps-bind, Keeps-try_catch}
use k8s_safed.Cluster.Exec.Adds.{Adds, more, Keeps-call}
use k8s_safed.Cluster.Poll.{Poller}
use k8s_safed.Cluster.Poll.Rules.{Keeps-poll}
use k8s_safed.Workload.{Workload}
use k8s_safed.Drain.Options.{Options}
use k8s_safed.Drain.Eviction.Filter.{
  pods_pending_deletion, filter_evictable, exclude_protected_pods, protected_workload_for_pod,
  is_standalone,
}
use k8s_safed.Drain.Eviction.Filter.Classes.{MayEvict, is_evictable-MayEvict}
use k8s_safed.Cluster.Requests.{get_pod, wait_or_done, delete_pod}
use k8s_safed.Drain.Eviction.Retry.{
  evict_loop, evict_with_pdb_retry, next_interval, settle, or_timed_out, timed_out,
  request_eviction, evict_round,
}
use k8s_safed.Drain.Eviction.Deletion.{sweep_one, sweep, check_deleted, wait_for_pods_deleted}
use k8s_safed.Drain.Eviction.Remaining.{
  force_delete, evict_one, evict_all, on_empty, wait_unless_dry_run, evict_candidates,
  guard_blocked,
}

module _ (env : Env) (opts : Options) (protected : List Workload) (pods : List Pod) where
  -- A pod of the list that the flags and the filters leave to eviction.
  pub record IsTarget (pod : Pod) : Type 0 where
    pub listed : Listed pod pods
    pub unprotected : protected_workload_for_pod env protected pod ≡ none
    pub may_evict : MayEvict opts.skip_daemon_sets opts.force opts.delete_empty_dir pod

  -- The calls of an eviction: those that read, the waits, evictions of targets, and deletions of
  -- targets with no owner if that was asked for.
  abbrev pub IsEviction : Call → Type 0
  IsEviction (Call.request ctx (Request.evict_pod ns name grace)) =
      (pod : Pod) × IsTarget pod × (pod.namespace ≡ ns) × (pod.name ≡ name) × (opts.dry_run ≡ false)
  IsEviction (Call.request ctx (Request.delete_pod ns name grace)) =
      (pod : Pod) × IsTarget pod
      × (pod.namespace ≡ ns)
      × (pod.name ≡ name)
      × (opts.dry_run ≡ false)
      × (opts.force_delete_standalone ≡ true)
      × (is_standalone pod ≡ true)
  IsEviction (Call.request ctx (Request.list_pods ns sel fields)) = Unit
  IsEviction (Call.request ctx (Request.get_pod ns name)) = Unit
  IsEviction (Call.request ctx r) = ⊥
  IsEviction (Call.pause d) = Unit
  IsEviction (Call.file op) = ⊥

  module _ (before : History) where
    abbrev Sound : World → Type 0
    Sound = Adds IsEviction before

    get_pod-Sound : (ctx : Context) (ns name : String) → Keeps Sound (get_pod env ctx ns name)
    get_pod-Sound ctx ns name = Keeps-call _ _ tt

    wait_or_done-Sound : (ctx : Context) (d : Duration) → Keeps Sound (wait_or_done env ctx d)
    wait_or_done-Sound ctx d = Keeps-call _ _ tt

    sweep_one-Sound :
        (ctx : Context) (pod : Pod) (seen : List Pod) (rest : Exec (List Pod × Bool))
        → Keeps Sound rest
        → Keeps Sound (sweep_one env ctx pod seen rest)
    unfolding sweep_one
    sweep_one-Sound ctx pod seen rest k =
        Keeps-try_catch _ _ _ (get_pod-Sound ctx _ _) (λ c. search (keeps_rules))
          (λ e. search (keeps_rules))

    sweep-Sound : (ctx : Context) (seen : List Pod) → Keeps Sound (sweep env ctx seen)
    unfolding sweep
    sweep-Sound ctx [] = search keeps_rules
    sweep-Sound ctx (pod ∷ seen) = sweep_one-Sound ctx pod seen _ (sweep-Sound ctx seen)

    wait_unless_dry_run-Sound :
        (poller : Poller) (ctx : Context) (ps : List Pod)
        → Keeps Sound (wait_unless_dry_run env poller opts ctx ps)
    unfolding wait_unless_dry_run wait_for_pods_deleted check_deleted
    wait_unless_dry_run-Sound poller ctx [] = search keeps_rules
    wait_unless_dry_run-Sound poller ctx (p ∷ ps) =
        Keeps-if opts.dry_run _ _ (λ _. search keeps_rules)
          λ _.
            Keeps-poll poller _ _ _ _ (λ w h. more _ tt h)
              (λ seen. search (keeps_rules, sweep-Sound))

    module _ (ctx : Context) (pod : Pod) (target : IsTarget pod) (wet : opts.dry_run ≡ false) where
      settle-Sound : (e : Error) → Keeps Sound (settle env opts e)
      unfolding settle
      settle-Sound e = search keeps_rules

      or_timed_out-Sound :
          (again : Exec Done) (o : Option Error)
          → Keeps Sound again
          → Keeps Sound (or_timed_out env opts again o)
      unfolding or_timed_out timed_out
      or_timed_out-Sound again none k = k
      or_timed_out-Sound again (some e) k = search keeps_rules

      request_eviction-Sound : (c : Context) → Keeps Sound (request_eviction env opts c pod)
      unfolding request_eviction
      request_eviction-Sound c = Keeps-call _ _ (pod, target, refl, refl, wet)

      evict_round-Sound :
          (again : Exec Done) (c : Context) (d : Duration)
          → Keeps Sound again
          → Keeps Sound (evict_round env opts again c pod d)
      unfolding evict_round
      evict_round-Sound again c d k =
          Keeps-try_catch _ _ _ (request_eviction-Sound c) (λ _. search keeps_rules)
            (λ e. search (keeps_rules, settle-Sound, or_timed_out-Sound, wait_or_done-Sound))

      evict_loop-Sound :
          (rounds : ℕ) (c : Context) (d : Duration)
          → Keeps Sound (evict_loop env opts rounds c pod d)
      unfolding evict_loop timed_out
      evict_loop-Sound zero c d = evict_round-Sound _ c d (search keeps_rules)
      evict_loop-Sound (suc n) c d =
          evict_round-Sound _ c d (evict_loop-Sound n c (next_interval d))

      force_delete-Sound :
          opts.force_delete_standalone ≡ true
          → is_standalone pod ≡ true
          → Keeps Sound (force_delete env opts ctx pod)
      unfolding force_delete
      force_delete-Sound asked alone =
          let deleted : Keeps Sound (delete_pod env ctx pod.namespace pod.name (some (pos 0))) =
            Keeps-call _ _ (pod, target, refl, refl, wet, asked, alone) in
          search (keeps_rules, deleted)

    evict_one-Sound :
        (ctx : Context) (pod : Pod) → IsTarget pod → Keeps Sound (evict_one env opts ctx pod)
    unfolding evict_one evict_with_pdb_retry
    evict_one-Sound ctx pod target =
        Keeps-if opts.dry_run _ _ (λ _. search keeps_rules)
          λ wet.
            Keeps-if (opts.force_delete_standalone && is_standalone pod) _ _
              (λ e. force_delete-Sound ctx pod target wet (ground arith) (ground arith))
              (λ _. search (keeps_rules, evict_loop-Sound ctx pod target wet))

    pub evict_all-Sound :
        (ctx : Context) (ps : List Pod) → All IsTarget ps → Keeps Sound (evict_all env opts ctx ps)
    unfolding evict_all
    evict_all-Sound ctx [] h = search keeps_rules
    evict_all-Sound ctx (p ∷ ps) h =
        Keeps-bind _ _ (evict_one-Sound ctx p h.0) (λ _. evict_all-Sound ctx ps h.1)

    module _ (poller : Poller) (ctx : Context) where
      on_empty-Sound :
          (ps : List Pod) (m n : Exec Done)
          → Keeps Sound m
          → Keeps Sound n
          → Keeps Sound (on_empty ps m n)
      on_empty-Sound [] m n km kn = km
      on_empty-Sound (p ∷ ps) m n km kn = kn

      pub evict_candidates-Sound :
          (candidates : List Pod)
          → All IsTarget
              (filter_evictable opts.skip_daemon_sets opts.force opts.delete_empty_dir candidates)
          → Keeps Sound (evict_candidates env poller opts ctx candidates)
      unfolding evict_candidates
      evict_candidates-Sound candidates h =
          let evictable =
            filter_evictable opts.skip_daemon_sets opts.force opts.delete_empty_dir candidates in
          let waiting = pods_pending_deletion opts.skip_daemon_sets candidates in
          on_empty-Sound evictable _ _
            (on_empty-Sound waiting (pure tt) _ (search keeps_rules)
              (wait_unless_dry_run-Sound poller ctx waiting))
            (Keeps-bind _ _ (evict_all-Sound ctx evictable h)
              (λ _. wait_unless_dry_run-Sound poller ctx (waiting ++ evictable)))

      pub guard_blocked-Sound :
          (blocked : List (Pod × String)) (rest : Exec Done)
          → Keeps Sound rest
          → Keeps Sound (guard_blocked env poller opts ctx blocked rest)
      unfolding guard_blocked
      guard_blocked-Sound [] rest k = k
      guard_blocked-Sound ((p, reason) ∷ blocked) rest k = search (keeps_rules, k)

  -- The candidates that pass the filter are targets.
  unprotected_pods :
      All
        (λ p. Listed p pods × (protected_workload_for_pod env protected p ≡ none))
        (exclude_protected_pods env protected pods)
  unfolding exclude_protected_pods
  unprotected_pods = none_or_some protected
    where
      listed : All (λ p. Listed p pods) pods
      listed = All-Listed pods

      none_or_some :
          (ws : List Workload)
          → All
              (λ p. Listed p pods × (protected_workload_for_pod env ws p ≡ none))
              (exclude_protected_pods env ws pods)
      none_or_some [] =
          All-mono _ _ pods (λ p l. (l, unfold protected_workload_for_pod in refl)) listed
      none_or_some (w ∷ ws) =
          All-mono _ _ _ (λ p h. (h.0, ground arith)) (All-keep_if_and _ _ pods listed)

  pub filter_evictable-IsTarget : All IsTarget (
      filter_evictable opts.skip_daemon_sets opts.force opts.delete_empty_dir
        (exclude_protected_pods env protected pods))
  unfolding filter_evictable
  filter_evictable-IsTarget =
      All-mono _ _ _
        (λ p h. record {
          listed = h.0.0;
          unprotected = h.0.1;
          may_evict = is_evictable-MayEvict _ _ _ p h.1;
        })
        (All-keep_if_and _ _ (exclude_protected_pods env protected pods) unprotected_pods)
