-- ===== src/Drain/Work/Evictions.antt =====
-- The evictions make no calls but work, and so does all that a drain does after the cordon.
use k8s_safed.Base.{ℕ, zero, suc, String, Option, none, some, List, [], ◌∷◌}
use k8s_safed.Cluster.Objects.{Duration, Pod}
use k8s_safed.Cluster.Calls.{Context}
use k8s_safed.Cluster.Env.{Env, Error}
use k8s_safed.Cluster.Exec.{World, Exec, Done}
use k8s_safed.Cluster.Exec.Keeps.{
  Keeps, keeps_rules, Keeps-bind, Keeps-pure, Keeps-try_catch, Keeps-if,
}
use k8s_safed.Cluster.Reads.{
  ReadClosed, list_pods-Keeps, get_pod-Keeps, wait_or_done-Keeps, poll-Keeps,
}
use k8s_safed.Cluster.Poll.{Poller}
use k8s_safed.Workload.{Workload}
use k8s_safed.Drain.Options.{Options}
use k8s_safed.Drain.Checkpoint.Store.{delete_checkpoint}
use k8s_safed.Drain.Eviction.Retry.{
  evict_loop, evict_with_pdb_retry, next_interval, settle, or_timed_out, timed_out,
  request_eviction, evict_round,
}
use k8s_safed.Drain.Eviction.Deletion.{sweep_one, sweep, check_deleted, wait_for_pods_deleted}
use k8s_safed.Drain.Eviction.Remaining.{
  force_delete, evict_one, evict_all, on_empty, wait_unless_dry_run, evict_candidates,
  guard_blocked, evict_remaining,
}
use k8s_safed.Drain.Phases.{finish_successful_drain, drain_cordoned}
use k8s_safed.Drain.Work.{
  WorkClosed, WorkClosed-ReadClosed, delete_pod-Keeps, evict_pod-Keeps, remove_file-Keeps,
}
use k8s_safed.Drain.Work.Restarts.{node_event_work-Keeps, run_workloads_work-Keeps}

module _ {P : World → Type 0} (closed : WorkClosed P) (env : Env) (poller : Poller)
    (opts : Options) where
  reads : ReadClosed P
  reads = WorkClosed-ReadClosed closed

  sweep-Keeps : (ctx : Context) (seen : List Pod) → Keeps P (sweep env ctx seen)
  unfolding sweep sweep_one
  sweep-Keeps ctx [] = search keeps_rules
  sweep-Keeps ctx (pod ∷ seen) =
      let rest = sweep-Keeps ctx seen in
      Keeps-try_catch _ _ _ (get_pod-Keeps reads env ctx _ _) (λ c. search keeps_rules)
        (λ e. search keeps_rules)

  wait_for_pods_deleted-Keeps :
      (ctx : Context) (pods : List Pod) (d : Duration)
      → Keeps P (wait_for_pods_deleted env poller opts ctx pods d)
  unfolding wait_for_pods_deleted check_deleted
  wait_for_pods_deleted-Keeps ctx [] d = Keeps-pure tt
  wait_for_pods_deleted-Keeps ctx (p ∷ ps) d =
      poll-Keeps reads poller _ _ _ _ (λ seen. search (keeps_rules, sweep-Keeps))

  or_timed_out-Keeps :
      (again : Exec Done) (o : Option Error)
      → Keeps P again
      → Keeps P (or_timed_out env opts again o)
  unfolding or_timed_out timed_out
  or_timed_out-Keeps again none k = k
  or_timed_out-Keeps again (some e) k = search keeps_rules

  evict_round-Keeps :
      (again : Exec Done) (c : Context) (pod : Pod) (d : Duration)
      → Keeps P again
      → Keeps P (evict_round env opts again c pod d)
  unfolding evict_round request_eviction settle
  evict_round-Keeps again c pod d k =
      Keeps-try_catch _ _ _ (evict_pod-Keeps closed env c _ _ _) (λ _. search keeps_rules)
        (λ e. search (keeps_rules, or_timed_out-Keeps, wait_or_done-Keeps reads env))

  evict_loop-Keeps :
      (rounds : ℕ) (c : Context) (pod : Pod) (d : Duration)
      → Keeps P (evict_loop env opts rounds c pod d)
  unfolding evict_loop timed_out
  evict_loop-Keeps zero c pod d = evict_round-Keeps _ c pod d (search keeps_rules)
  evict_loop-Keeps (suc n) c pod d =
      evict_round-Keeps _ c pod d (evict_loop-Keeps n c pod (next_interval d))

  evict_one-Keeps : (ctx : Context) (pod : Pod) → Keeps P (evict_one env opts ctx pod)
  unfolding evict_one force_delete evict_with_pdb_retry
  evict_one-Keeps ctx pod =
      Keeps-if opts.dry_run _ _ (λ _. Keeps-pure tt)
        (λ _. search (keeps_rules, delete_pod-Keeps closed env, evict_loop-Keeps))

  evict_all-Keeps : (ctx : Context) (pods : List Pod) → Keeps P (evict_all env opts ctx pods)
  unfolding evict_all
  evict_all-Keeps ctx [] = Keeps-pure tt
  evict_all-Keeps ctx (pod ∷ pods) =
      Keeps-bind _ _ (evict_one-Keeps ctx pod) (λ _. evict_all-Keeps ctx pods)

  wait_unless_dry_run-Keeps :
      (ctx : Context) (pods : List Pod) → Keeps P (wait_unless_dry_run env poller opts ctx pods)
  unfolding wait_unless_dry_run
  wait_unless_dry_run-Keeps ctx pods = search (keeps_rules, wait_for_pods_deleted-Keeps)

  on_empty-Keeps :
      (pods : List Pod) (m n : Exec Done) → Keeps P m → Keeps P n → Keeps P (on_empty pods m n)
  on_empty-Keeps [] m n km kn = km
  on_empty-Keeps (p ∷ ps) m n km kn = kn

  evict_candidates-Keeps :
      (ctx : Context) (pods : List Pod) → Keeps P (evict_candidates env poller opts ctx pods)
  unfolding evict_candidates
  evict_candidates-Keeps ctx pods =
      on_empty-Keeps _ _ _ (on_empty-Keeps _ _ _ (Keeps-pure tt) (wait_unless_dry_run-Keeps ctx _))
        (Keeps-bind _ _ (evict_all-Keeps ctx _) (λ _. wait_unless_dry_run-Keeps ctx _))

  guard_blocked-Keeps :
      (ctx : Context) (blocked : List (Pod × String)) (rest : Exec Done)
      → Keeps P rest
      → Keeps P (guard_blocked env poller opts ctx blocked rest)
  unfolding guard_blocked
  guard_blocked-Keeps ctx [] rest k = k
  guard_blocked-Keeps ctx ((pod, reason) ∷ blocked) rest k = search keeps_rules

  evict_remaining-Keeps :
      (ctx : Context) (protected : List Workload)
      → Keeps P (evict_remaining env poller opts ctx protected)
  unfolding evict_remaining
  evict_remaining-Keeps ctx protected =
      Keeps-bind _ _ (search (keeps_rules, list_pods-Keeps reads env))
        (λ pods. guard_blocked-Keeps ctx _ _ (evict_candidates-Keeps ctx _))

  pub delete_checkpoint-Keeps : (path : String) → Keeps P (delete_checkpoint env path)
  unfolding delete_checkpoint
  delete_checkpoint-Keeps path = search (keeps_rules, remove_file-Keeps closed env)

  pub drain_cordoned-Keeps :
      (ctx : Context) (prepared : List Workload × List Workload)
      → Keeps P (drain_cordoned env poller opts ctx prepared)
  unfolding drain_cordoned finish_successful_drain
  drain_cordoned-Keeps ctx (ws, protected) =
      Keeps-bind _ _
        (Keeps-bind _ _
          (Keeps-bind _ _ (run_workloads_work-Keeps closed env poller opts ctx ws)
            (λ _. evict_remaining-Keeps ctx protected))
          (λ _. search (keeps_rules, delete_checkpoint-Keeps)))
        (λ _. search (keeps_rules, node_event_work-Keeps closed env opts))
