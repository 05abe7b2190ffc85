-- ===== src/Drain/Phases/Completed.antt =====
-- The pods of the node when a run ended without an error.
use k8s_safed.Base.{◌≡◌, refl, Bool, true, false, subst, List, []}
use k8s_safed.Cluster.Objects.{Node}
use k8s_safed.Cluster.Calls.{Context, History}
use k8s_safed.Cluster.Env.{Env, Error, ok}
use k8s_safed.Cluster.Exec.{World, Exec, Done, pure, ◌>>=◌, try_catch}
use k8s_safed.Cluster.Exec.Keeps.{
  Keeps, keeps_rules, Keeps-ask, Keeps-if, Keeps-pure, Keeps-bind, Keeps-in_context,
}
use k8s_safed.Cluster.Exec.Meets.{
  Post-ok, Meets, Meets-pure, Meets-bind, Meets-try_catch, Returns-any, Returns-bind, Returns-pure,
  Returns, Meets-raise,
}
use k8s_safed.Cluster.Exec.Meets.More.{Meets-and, Meets-else, Meets-mono, Ran, Meets-itself}
use k8s_safed.Cluster.Exec.Since.{Grown, same, grown}
use k8s_safed.Cluster.Poll.{Poller}
use k8s_safed.Workload.{Workload}
use k8s_safed.Drain.Options.{Options}
use k8s_safed.Drain.Node.{cordon}
use k8s_safed.Drain.WorkloadFilter.{filter_workloads}
use k8s_safed.Drain.Work.{WorkClosed-ReadClosed}
use k8s_safed.Drain.Work.Restarts.{node_event_work-Keeps}
use k8s_safed.Drain.Phases.{
  discover_workloads, prepare_before_cordon, begin_cordoned_drain, drain_cordoned, clean_up,
  drain_context, run,
}
use k8s_safed.Drain.Phases.Reads.{
  validate_node-Keeps, discover_workloads-Keeps, prepare_before_cordon-Keeps,
}
use k8s_safed.Drain.Phases.Cleared.{NodeCleared, Grown-WorkClosed, drain_cordoned-NodeCleared}

module _ (env : Env) (opts : Options) (before : History) where
  -- The workloads that were found on the node, and what became of its pods.
  abbrev pub RunCleared : Context → History → Type 0
  RunCleared ctx now =
      (workloads : List Workload) × (end : World) × Ran (discover_workloads env opts ctx) workloads
        end
      × NodeCleared env opts ctx (filter_workloads opts workloads).1 before now

-- The run ends with what `drain_cordoned` promises, since a failure is not lost in `clean_up`.
module _ (env : Env) (poller : Poller) (opts : Options) (outer : Context) (before : History)
    (wet : opts.dry_run ≡ false) where
  abbrev Continued : World → Type 0
  Continued w = Grown before w.calls

  cordon-Continued : (ctx : Context) (node : Node) → Keeps Continued (cordon env opts ctx node)
  unfolding cordon
  cordon-Continued ctx node =
      Keeps-if node.unschedulable _ _ (λ _. Keeps-pure false)
        (λ _.
          Keeps-if opts.dry_run _ _ (λ _. Keeps-pure false)
            (λ _.
              Keeps-bind _ _ (Keeps-in_context _ _ (Keeps-ask _ _ (λ w g. grown _ g)))
                (λ _. Keeps-pure true)))

  begin-Continued :
      (ctx : Context) (node : Node) → Keeps Continued (begin_cordoned_drain env opts ctx node)
  unfolding begin_cordoned_drain
  begin-Continued ctx node =
      let closed = Grown-WorkClosed env opts ctx [] before in
      search (keeps_rules, cordon-Continued, node_event_work-Keeps closed env opts)

  prepare-Returns :
      (ctx : Context) (ws : List Workload)
      → Returns (λ r. r ≡ filter_workloads opts ws) (prepare_before_cordon env opts ctx ws)
  unfolding prepare_before_cordon
  prepare-Returns ctx ws =
      Returns-bind (λ _. Unit {0}) _ _ (Returns-any _) (λ _ _. Returns-pure _ refl)

  -- A promise on the value of an action that goes on from `before`.
  with_value :
      {A : Type 0} (Q : A → World → Type 0) (m : Exec A)
      → Meets (λ _. Unit {0}) Q (λ _ _. Unit {0}) m
      → Keeps Continued m
      → Meets Continued (λ a u. Q a u × Continued u) (λ _ _. Unit {0}) m
  with_value Q m h k =
      Meets-mono (λ a u both. both) (λ e u both. tt)
        (record { at = λ w g. (Meets-and m h k).at w (tt, g) })

  clean_up-raises :
      {Q : Done → World → Type 0} (b : Bool) (e : Error)
      → Meets (λ _. Unit {0}) Q (λ _ _. Unit {0}) (clean_up env poller opts b e)
  unfolding clean_up
  clean_up-raises b e =
      Meets-bind (λ _ _. Unit {0}) _ _ (Returns-any _) (λ _. Meets-raise e (λ w h. tt))

  module _ (ctx : Context) where
    abbrev Cleared : List Workload → World → Type 0
    Cleared protected w = NodeCleared env opts ctx protected before w.calls

    drained :
        (prepared : List Workload × List Workload) (b : Bool)
        → Meets Continued
            (λ _. Cleared prepared.1)
            (λ _ _. Unit {0})
            (try_catch
              (drain_cordoned env poller opts ctx prepared)
              pure
              (clean_up env poller opts b))
    drained (ws, protected) b =
        Meets-try_catch (λ _. Cleared protected) (λ _ _. Unit {0}) _ _ _
          (drain_cordoned-NodeCleared env opts ctx protected before poller wet ws)
          (λ done. Meets-pure done (λ w h. h)) (λ e. clean_up-raises b e)

    after_discovery :
        (node : Node) (ws : List Workload)
        → Meets Continued
            (λ _. Cleared (filter_workloads opts ws).1)
            (λ _ _. Unit {0})
            (prepare_before_cordon env opts ctx ws >>= λ prepared.
              begin_cordoned_drain env opts ctx node >>= λ cordoned_by_us.
              try_catch
                (drain_cordoned env poller opts ctx prepared)
                pure
                (clean_up env poller opts cordoned_by_us))
    after_discovery node ws =
        let reads = WorkClosed-ReadClosed (Grown-WorkClosed env opts ctx [] before) in
        Meets-bind (λ prepared w. (prepared ≡ filter_workloads opts ws) × Continued w) _ _
          (with_value _ _ (prepare-Returns ctx ws)
            (prepare_before_cordon-Keeps reads env opts ctx ws))
          (λ prepared. record {
            at = λ w h.
                (Meets-bind (λ _. Continued) _ _
                    (Meets-else _ (begin-Continued ctx node) (λ u g. tt))
                    (λ b.
                      Meets-mono
                        (λ done u cleared.
                          subst (λ (r : List Workload × List Workload). Cleared r.1 u) h.0 cleared)
                        (λ e u t. t) (drained prepared b))).at
                  w h.1;
          })

  run-RunCleared :
      Meets Continued
        (λ _ w. RunCleared env opts before (drain_context env poller opts outer) w.calls)
        (λ _ _. Unit {0})
        (run env poller opts outer)
  unfolding run
  run-RunCleared =
      let ctx = drain_context env poller opts outer in
      let reads = WorkClosed-ReadClosed (Grown-WorkClosed env opts ctx [] before) in
      Meets-bind (λ _. Continued) _ _
        (Meets-else _ (validate_node-Keeps reads env opts ctx) (λ u g. tt))
        (λ node.
          Meets-bind (λ ws w. Ran (discover_workloads env opts ctx) ws w × Continued w) _ _
            (with_value _ _ (Meets-mono (λ a w r. r) (λ e w r. tt) (Meets-itself _))
              (discover_workloads-Keeps reads env opts ctx))
            (λ ws. record {
              at = λ w h.
                  (Meets-mono (λ done u cleared. (ws, w, h.0, cleared)) (λ e u t. t)
                      (after_discovery ctx node ws)).at
                    w h.1;
            }))

pub run_clears :
    (env : Env) (poller : Poller) (opts : Options) (outer : Context) (w w' : World)
    → opts.dry_run ≡ false
    → run env poller opts outer w ≡ (ok tt, w')
    → RunCleared env opts w.calls (drain_context env poller opts outer) w'.calls
run_clears env poller opts outer w w' wet returned =
    Post-ok _ (λ _ _. Unit {0}) returned
      ((run-RunCleared env poller opts outer w.calls wet).at w (same refl))
