-- ===== src/Drain/Phases/Cleared.antt =====
-- The pods of the node when the steps after the cordon ended without an error.
use k8s_safed.Base.{◌≡◌, refl, sym, ◌∙◌, false, arith, List, [], ◌∷◌, All, All-mono, Some, inl, inr}
use k8s_safed.Base.Text.{append_text}
use k8s_safed.Cluster.Objects.{Pod}
use k8s_safed.Cluster.Calls.{Context, Call, History}
use k8s_safed.Cluster.Env.{Env, Result, ok, err}
use k8s_safed.Cluster.Exec.{World, Exec, Done}
use k8s_safed.Cluster.Exec.Keeps.{Keeps, keeps_rules}
use k8s_safed.Cluster.Exec.Meets.{Post, Meets, Meets-bind}
use k8s_safed.Cluster.Exec.Meets.More.{Meets-else}
use k8s_safed.Cluster.Exec.Since.{Grown, grown}
use k8s_safed.Cluster.Exec.Steps.{bind-err, in_context-err, ask_lem}
use k8s_safed.Cluster.Poll.{Poller}
use k8s_safed.Workload.{Workload}
use k8s_safed.Drain.Options.{Options}
use k8s_safed.Drain.Work.{WorkClosed}
use k8s_safed.Drain.Work.Restarts.{node_event_work-Keeps, run_workloads_work-Keeps}
use k8s_safed.Drain.Work.Evictions.{delete_checkpoint-Keeps}
use k8s_safed.Drain.Eviction.Deletion.Swept.{since}
use k8s_safed.Drain.Eviction.Remaining.{evict_remaining}
use k8s_safed.Drain.Eviction.Remaining.Safety.{candidates}
use k8s_safed.Drain.Eviction.Remaining.Cleared.{IsCleared, evict_remaining_clears}
use k8s_safed.Drain.Phases.{drain_cordoned, finish_successful_drain}

Some-mono :
    (P Q : Pod → Type 0) (pods : List Pod) → ((p : Pod) → P p → Q p) → Some P pods → Some Q pods
Some-mono P Q [] f s = absurd s
Some-mono P Q (p ∷ pods) f (inl h) = inl (f p h)
Some-mono P Q (p ∷ pods) f (inr s) = inr (Some-mono P Q pods f s)

module _ (env : Env) (opts : Options) (ctx : Context) (protected : List Workload)
    (before : History) where
  -- Since `before` the pods of the node were listed, and each that no filtered workload protects
  -- was left alone or has gone since.
  pub record NodeCleared (now : History) : Type 0 where
    pub seen : History
    pub began : Grown before seen
    pub pods : List Pod
    pub listed : env.pods_of seen ctx "" "" (append_text "spec.nodeName=" opts.node_name) ≡ ok pods
    pub cleared :
        All (IsCleared env opts ctx protected pods seen now) (candidates env opts protected pods)

  cleared_later :
      (pods : List Pod) (seen now : History) (c : Call) (pod : Pod)
      → IsCleared env opts ctx protected pods seen now pod
      → IsCleared env opts ctx protected pods seen (c ∷ now) pod
  cleared_later pods seen now c pod (inl exempt) = inl exempt
  cleared_later pods seen now c pod (inr gone) =
      inr (Some-mono _ _ _ (λ p h. (h.0, since c h.1)) gone)

  NodeCleared-WorkClosed : WorkClosed (λ w. NodeCleared w.calls)
  NodeCleared-WorkClosed = record {
    works = λ c k w h. record {
      seen = h.seen;
      began = h.began;
      pods = h.pods;
      listed = h.listed;
      cleared = All-mono _ _ _ (λ p gone. cleared_later h.pods h.seen w.calls c p gone) h.cleared;
    };
    effects = λ w files restarted h. h;
  }

  pub Grown-WorkClosed : WorkClosed (λ w. Grown before w.calls)
  Grown-WorkClosed = record { works = λ c k w g. grown c g; effects = λ w files restarted g. g }

  module _ (poller : Poller) (wet : opts.dry_run ≡ false) where
    when_listed :
        (r : Result (List Pod)) (w w' : World)
        → env.pods_of w.calls ctx "" "" (append_text "spec.nodeName=" opts.node_name) ≡ r
        → Grown before w.calls
        → evict_remaining env poller opts ctx protected w ≡ (ok tt, w')
        → NodeCleared w'.calls
    unfolding evict_remaining
    when_listed (ok pods) w w' answer g returned = record {
      seen = w.calls;
      began = g;
      pods = pods;
      listed = answer;
      cleared = evict_remaining_clears env poller opts ctx protected pods w w' wet answer returned;
    }
    when_listed (err e) w w' answer g returned = absurd (
        ground
          (arith, sym (bind-err _ _ w (in_context-err _ _ w (ask_lem _ _ w answer))) ∙ returned))

    evicted :
        (r : Result Done) (w w' : World)
        → Grown before w.calls
        → evict_remaining env poller opts ctx protected w ≡ (r, w')
        → Post (λ _ u. NodeCleared u.calls) (λ _ _. Unit {0}) (r, w')
    evicted (err e) w w' g returned = tt
    evicted (ok tt) w w' g returned = when_listed _ w w' refl g returned

    evict_remaining-NodeCleared :
        Meets
          (λ w. Grown before w.calls)
          (λ _ w. NodeCleared w.calls)
          (λ _ _. Unit {0})
          (evict_remaining env poller opts ctx protected)
    evict_remaining-NodeCleared = record {
      at = λ w g.
          let (r, w') = evict_remaining env poller opts ctx protected w in evicted r w w' g refl;
    }

    kept :
        {A : Type 0} {P : World → Type 0} (m : Exec A)
        → Keeps P m
        → Meets P (λ _. P) (λ _ _. Unit {0}) m
    kept m k = Meets-else m k (λ u h. tt)

    pub drain_cordoned-NodeCleared :
        (ws : List Workload)
        → Meets
            (λ w. Grown before w.calls)
            (λ _ w. NodeCleared w.calls)
            (λ _ _. Unit {0})
            (drain_cordoned env poller opts ctx (ws, protected))
    unfolding drain_cordoned finish_successful_drain
    drain_cordoned-NodeCleared ws =
        let closed = NodeCleared-WorkClosed in
        Meets-bind (λ _ w. NodeCleared w.calls) _ _
          (Meets-bind (λ _ w. NodeCleared w.calls) _ _
            (Meets-bind (λ _ w. Grown before w.calls) _ _
              (kept _ (run_workloads_work-Keeps Grown-WorkClosed env poller opts ctx ws))
              (λ _. evict_remaining-NodeCleared))
            (λ _. kept _ (search (keeps_rules, delete_checkpoint-Keeps closed env))))
          (λ _. kept _ (search (keeps_rules, node_event_work-Keeps closed env opts)))
