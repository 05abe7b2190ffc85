-- ===== src/Drain/DryRun/Whole.antt =====
-- A dry run of `run` changes nothing.
use k8s_safed.Base.{◌≡◌, refl, String, Bool, true, false, List, [], ◌∷◌, not, ◌&&◌, ◌==◌, arith}
use k8s_safed.Cluster.Objects.{Pod, Node}
use k8s_safed.Cluster.Calls.{Context}
use k8s_safed.Cluster.Env.{Env, Error}
use k8s_safed.Cluster.Exec.{World, Exec, Done}
use k8s_safed.Cluster.Exec.Keeps.{
  Keeps, keeps_rules, Keeps-bind, Keeps-pure, Keeps-raise, Keeps-frame, Keeps-if,
}
use k8s_safed.Cluster.Exec.Meets.{
  Meets, Meets-pure, Meets-if, Meets-bind, Meets-try_catch, Meets-Keeps,
}
use k8s_safed.Cluster.Exec.Meets.More.{Keeps-Meets, Meets-frame}
use k8s_safed.Cluster.Exec.Adds.{nothing}
use k8s_safed.Cluster.Reads.{ReadClosed, list_pods-Keeps}
use k8s_safed.Cluster.Poll.{Poller}
use k8s_safed.Workload.{Workload}
use k8s_safed.Drain.Options.{Options}
use k8s_safed.Drain.Node.{cordon}
use k8s_safed.Drain.Eviction.Remaining.{
  evict_one, evict_all, evict_candidates, wait_unless_dry_run, guard_blocked, evict_remaining,
  on_empty,
}
use k8s_safed.Drain.Phases.{
  begin_cordoned_drain, finish_successful_drain, drain_cordoned, clean_up, drain_context, run,
}
use k8s_safed.Drain.Phases.Reads.{
  validate_node-Keeps, discover_workloads-Keeps, prepare_before_cordon-Keeps,
}
use k8s_safed.Drain.DryRun.{IsUntouched, IsUntouched-ReadClosed}
use k8s_safed.Drain.DryRun.Restarts.{node_event-Keeps, run_workloads_dry-Keeps}

module _ {P : World → Type 0} (closed : ReadClosed P) (env : Env) (poller : Poller) (opts : Options)
    (dry : opts.dry_run ≡ true) where
  evict_all-Keeps : (ctx : Context) (pods : List Pod) → Keeps P (evict_all env opts ctx pods)
  unfolding evict_all evict_one
  evict_all-Keeps ctx [] = Keeps-pure tt
  evict_all-Keeps ctx (pod ∷ pods) =
      Keeps-bind _ _ (Keeps-if opts.dry_run _ _ (λ _. Keeps-pure tt) (λ wet. absurd (ground arith)))
        (λ _. evict_all-Keeps ctx pods)

  wait-Keeps :
      (ctx : Context) (pods : List Pod) → Keeps P (wait_unless_dry_run env poller opts ctx pods)
  unfolding wait_unless_dry_run
  wait-Keeps ctx pods =
      Keeps-if opts.dry_run _ _ (λ _. Keeps-pure tt) (λ wet. absurd (ground arith))

  on_empty-Keeps :
      (pods : List Pod) (m n : Exec Done) → Keeps P m → Keeps P n → Keeps P (on_empty pods m n)
  on_empty-Keeps [] m n km kn = km
  on_empty-Keeps (p ∷ ps) m n km kn = kn

  evict_candidates-Keeps :
      (ctx : Context) (pods : List Pod) → Keeps P (evict_candidates env poller opts ctx pods)
  unfolding evict_candidates
  evict_candidates-Keeps ctx pods =
      on_empty-Keeps _ _ _ (on_empty-Keeps _ _ _ (Keeps-pure tt) (wait-Keeps ctx _))
        (Keeps-bind _ _ (evict_all-Keeps ctx _) (λ _. wait-Keeps ctx _))

  guard_blocked-Keeps :
      (ctx : Context) (blocked : List (Pod × String)) (rest : Exec Done)
      → Keeps P rest
      → Keeps P (guard_blocked env poller opts ctx blocked rest)
  unfolding guard_blocked
  guard_blocked-Keeps ctx [] rest k = k
  guard_blocked-Keeps ctx ((pod, reason) ∷ blocked) rest k =
      Keeps-if opts.dry_run _ _ (λ _. k) (λ wet. Keeps-raise _)

  evict_remaining-Keeps :
      (ctx : Context) (protected : List Workload)
      → Keeps P (evict_remaining env poller opts ctx protected)
  unfolding evict_remaining
  evict_remaining-Keeps ctx protected =
      Keeps-bind _ _ (search (keeps_rules, list_pods-Keeps closed env))
        (λ pods. guard_blocked-Keeps ctx _ _ (evict_candidates-Keeps ctx _))

  drain_cordoned-Keeps :
      (ctx : Context) (prepared : List Workload × List Workload)
      → Keeps P (drain_cordoned env poller opts ctx prepared)
  unfolding drain_cordoned finish_successful_drain
  drain_cordoned-Keeps ctx (ws, protected) =
      Keeps-bind _ _
        (Keeps-bind _ _
          (Keeps-bind _ _ (run_workloads_dry-Keeps closed env poller opts dry ctx ws)
            (λ _. evict_remaining-Keeps ctx protected))
          (λ _.
            Keeps-if (not (opts.checkpoint_path == "") && not opts.dry_run) _ _
              (λ wet. absurd (ground arith)) (λ _. Keeps-pure tt)))
        (λ _. Keeps-if opts.dry_run _ _ (λ _. Keeps-pure tt) (λ wet. absurd (ground arith)))

  -- What a cordon returns, in a dry run.
  abbrev Uncordoned : Bool → World → Type 0
  Uncordoned b w = P w × (b ≡ false)

  cordon-Uncordoned :
      (ctx : Context) (node : Node) → Meets P Uncordoned (λ _. P) (cordon env opts ctx node)
  unfolding cordon
  cordon-Uncordoned ctx node =
      Meets-if node.unschedulable _ _ (λ _. Meets-pure _ (λ w p. (p, refl)))
        (λ _.
          Meets-if opts.dry_run _ _ (λ _. Meets-pure _ (λ w p. (p, refl)))
            (λ wet. absurd (ground arith)))

  begin_cordoned_drain-Uncordoned :
      (ctx : Context) (node : Node)
      → Meets P Uncordoned (λ _. P) (begin_cordoned_drain env opts ctx node)
  unfolding begin_cordoned_drain
  begin_cordoned_drain-Uncordoned ctx node =
      Meets-bind Uncordoned _ _ (cordon-Uncordoned ctx node) (λ b.
        Meets-bind (λ _. Uncordoned b) _ _
          (Meets-frame _ _ (Meets-Keeps _ (node_event-Keeps closed env poller opts dry ctx _ _)))
          (λ _. Meets-pure b (λ w h. h)))

  clean_up-Keeps : (e : Error) → Keeps P (clean_up env poller opts false e)
  unfolding clean_up
  clean_up-Keeps e = search (keeps_rules, node_event-Keeps closed env poller opts dry)

  clean_up-Meets :
      (b : Bool) (e : Error)
      → Meets (λ w. P w × (b ≡ false)) (λ _. P) (λ _. P) (clean_up env poller opts b e)
  clean_up-Meets true e = record { at = λ w h. absurd (ground arith) }
  clean_up-Meets false e = record { at = λ w h. (Meets-Keeps _ (clean_up-Keeps e)).at w h.0 }

  pub run-Keeps : (outer : Context) → Keeps P (run env poller opts outer)
  unfolding run
  run-Keeps outer =
      let ctx = drain_context env poller opts outer in
      Keeps-bind _ _ (validate_node-Keeps closed env opts ctx) (λ node.
        Keeps-bind _ _ (discover_workloads-Keeps closed env opts ctx) (λ ws.
          Keeps-bind _ _ (prepare_before_cordon-Keeps closed env opts ctx ws) (λ prepared.
            Keeps-Meets _ (
              Meets-bind Uncordoned _ _ (begin_cordoned_drain-Uncordoned ctx node) (λ b.
                Meets-try_catch (λ _ w. P w × (b ≡ false)) (λ _ w. P w × (b ≡ false)) _ _ _
                  (Meets-Keeps _ (Keeps-frame _ _ (drain_cordoned-Keeps ctx prepared)))
                  (λ _. Meets-pure tt (λ w h. h.0)) (clean_up-Meets b))))))

-- In a dry run, whatever the server answers, all that `run` does to the outside is to read and to
-- wait: no request that changes the cluster, no event, no change to a file or to the restarts that
-- the coordinator has recorded.
pub run_dry :
    (env : Env) (poller : Poller) (opts : Options) (outer : Context) (w : World)
    → opts.dry_run ≡ true
    → IsUntouched w (run env poller opts outer w).1
run_dry env poller opts outer w dry =
    (run-Keeps (IsUntouched-ReadClosed w) env poller opts dry outer).at w
      (record { only_reads = nothing refl; files = refl; restarted = refl })
