-- ===== src/App/Resolved/Drained.antt =====
-- When the drains of several nodes end without an error, and where they stop.
use mathlib.Core.List.{cons≢nil}
use k8s_safed.Base.{
  ◌≡◌, refl, ℕ, zero, suc, ◌≤◌, String, List, [], ◌∷◌, All, All-take-drop, length-drop-le, arith,
  length, take, drop, nat_eq, ◌⊎◌, inl, inr, true, Bool-cases,
}
use k8s_safed.Cluster.Calls.{Context, group}
use k8s_safed.Cluster.Env.{Env, Result, ok, err}
use k8s_safed.Cluster.Exec.{World, Done}
use k8s_safed.Cluster.Exec.Meets.{
  Post, Returns, Returns-pure, Returns-raise, Returns-bind, Returns-try_catch, Returns-any,
  Returns-ok, Meets-if, Meets-try_catch,
}
use k8s_safed.Cluster.Exec.Meets.More.{Meets-mono}
use k8s_safed.Cluster.Poll.{Poller}
use k8s_safed.Drain.Phases.{drain_context, run}
use k8s_safed.Drain.Options.{Options}
use k8s_safed.Drain.Phases.Completed.{RunCleared, run_clears}
use k8s_safed.Drain.Uncordon.{AfterSuccess, AfterFailure}
use k8s_safed.Drain.Uncordon.Whole.{run_uncordons}
use k8s_safed.App.{AppOptions, drainer_options}
use k8s_safed.App.Resolved.{
  drain_at, drain_node, drain_sequential, drain_batch, drain_batches, node_batch_size, run_resolved,
}

module _ (env : Env) (poller : Poller) (user_home_dir : Result String) (kube_context : String)
    (opts : AppOptions) (nodes : List String) where
  -- The pods of the node are cleared, as `RunCleared` says, if this is no dry run.
  abbrev pub Cleared : Options → Context → World → World → Type 0
  Cleared o ctx start end = (o.dry_run ≡ true) ⊎ RunCleared env o start.calls ctx end.calls

  wet_or_dry :
      (o : Options) (outer : Context) (start end : World)
      → run env poller o outer start ≡ (ok tt, end)
      → Cleared o (drain_context env poller o outer) start end
  wet_or_dry o outer start end returned = elim (Bool-cases o.dry_run) [
    | inl dry ↦ inl dry
    | inr wet ↦ inr (run_clears env poller o outer start end wet returned)
  ]

  -- A run of the drainer of this node that has ended without an error, with the node cordoned
  -- as `AfterSuccess` says and its pods cleared as `Cleared` says.
  pub record IsDrained (n : String) : Type 0 where
    pub path : String
    pub outer : Context
    pub start : World
    pub end : World
    pub ended :
        drain_at env poller user_home_dir kube_context opts nodes outer n path start ≡ (ok tt, end)
    pub cordoned :
        let o = drainer_options opts nodes kube_context n path in
        AfterSuccess env o (drain_context env poller o outer) start.calls end
    pub cleared :
        let o = drainer_options opts nodes kube_context n path in
        Cleared o (drain_context env poller o outer) start end

  drain_at-IsDrained :
      (ctx : Context) (n path : String)
      → Returns
          (λ _. IsDrained n)
          (drain_at env poller user_home_dir kube_context opts nodes ctx n path)
  drain_at-IsDrained ctx n path = record {
    at = λ w _.
        let o = drainer_options opts nodes kube_context n path in
        let (r, w') = run env poller o ctx w in
        returned w r w' refl (run_uncordons env poller o ctx w);
  }
    where
      returned :
          (w : World) (r : Result Done) (w' : World)
          → drain_at env poller user_home_dir kube_context opts nodes ctx n path w ≡ (r, w')
          → let o = drainer_options opts nodes kube_context n path in
            Post
              (λ _. AfterSuccess env o (drain_context env poller o ctx) w.calls)
              (λ _. AfterFailure env o (drain_context env poller o ctx) w.calls)
              (r, w')
            → Post (λ _ _. IsDrained n) (λ _ _. Unit) (r, w')
      returned w (ok done) w' e h = record {
        path = path;
        outer = ctx;
        start = w;
        end = w';
        ended = e;
        cordoned = h;
        cleared = wet_or_dry (drainer_options opts nodes kube_context n path) ctx w w' e;
      }
      returned w (err e) w' eq h = tt

  drain_node-IsDrained :
      (ctx : Context) (n : String)
      → Returns
          (λ _. IsDrained n)
          (drain_node env poller user_home_dir kube_context opts nodes ctx n)
  unfolding drain_node
  drain_node-IsDrained ctx n =
      Returns-bind (λ _. Unit) _ _ (Returns-any _) (λ path _. drain_at-IsDrained ctx n path)

  drain_sequential-IsDrained :
      (ctx : Context) (ns : List String)
      → Returns
          (λ _. All IsDrained ns)
          (drain_sequential env poller user_home_dir kube_context opts nodes ctx ns)
  unfolding drain_sequential
  drain_sequential-IsDrained ctx [] = Returns-pure tt tt
  drain_sequential-IsDrained ctx (n ∷ ns) =
      Returns-bind (λ _. IsDrained n) _ _ (drain_node-IsDrained ctx n)
        (λ _ first.
          Meets-mono (λ _ _ rest. (first, rest)) (λ e _ h. h) (drain_sequential-IsDrained ctx ns))

  drain_batch-IsDrained :
      (ctx : Context) (ns : List String)
      → Returns
          (λ _. All IsDrained ns)
          (drain_batch env poller user_home_dir kube_context opts nodes ctx ns)
  unfolding drain_batch
  drain_batch-IsDrained ctx [] = Returns-pure tt tt
  drain_batch-IsDrained ctx (n ∷ ns) =
      Meets-try_catch (λ _ _. IsDrained n) (λ _ _. Unit) _ _ _ (drain_node-IsDrained ctx n)
        (λ _. record {
          at = λ u first.
              (Meets-mono (λ _ _ rest. (first, rest)) (λ e _ h. h)
                  (drain_batch-IsDrained ctx ns)).at
                u tt;
        })
        (λ e. Returns-try_catch _ _ _ (λ _. Returns-raise e) (λ later. Returns-raise e))

  drain_batches-IsDrained :
      (rounds size : ℕ) (ctx : Context) (ns : List String)
      → length ns ≤ rounds
      → Returns
          (λ _. All IsDrained ns)
          (drain_batches env poller user_home_dir kube_context opts nodes rounds ctx (suc size) ns)
  unfolding drain_batches
  drain_batches-IsDrained zero size ctx [] enough = Returns-pure tt tt
  drain_batches-IsDrained zero size ctx (n ∷ ns) enough = absurd (omega arith)
  drain_batches-IsDrained (suc rounds) size ctx [] enough = Returns-pure tt tt
  drain_batches-IsDrained (suc rounds) size ctx (n ∷ ns) enough =
      Returns-bind (λ _. All IsDrained (take (suc size) (n ∷ ns))) _ _
        (drain_batch-IsDrained (group ctx) _)
        (λ _ first.
          Meets-mono (λ _ _ rest. All-take-drop IsDrained (suc size) (n ∷ ns) first rest)
            (λ e _ h. h)
            (drain_batches-IsDrained rounds size ctx (drop size ns)
              (omega (arith, length-drop-le size ns))))

  drain_batches-any_size :
      (size : ℕ) (ctx : Context) (ns : List String)
      → (size ≡ 0 → ns ≡ [])
      → Returns
          (λ _. All IsDrained ns)
          (drain_batches env poller user_home_dir kube_context opts nodes (length ns) ctx size ns)
  unfolding drain_batches
  drain_batches-any_size zero ctx [] some_size = Returns-pure tt tt
  drain_batches-any_size zero ctx (n ∷ ns) some_size = absurd (cons≢nil (some_size refl))
  drain_batches-any_size (suc size) ctx ns some_size =
      drain_batches-IsDrained (length ns) size ctx ns (omega arith)

  node_batch_size-zero : node_batch_size opts nodes ≡ 0 → nodes ≡ []
  unfolding node_batch_size
  node_batch_size-zero h = ground arith

  pub run_resolved-IsDrained :
      (ctx : Context)
      → Returns
          (λ _. All IsDrained nodes)
          (run_resolved env poller user_home_dir kube_context opts nodes ctx)
  unfolding run_resolved
  run_resolved-IsDrained ctx =
      Meets-if (nat_eq (node_batch_size opts nodes) 1) _ _
        (λ one. drain_sequential-IsDrained ctx nodes)
        (λ more. drain_batches-any_size _ ctx nodes node_batch_size-zero)

-- When the drains of several nodes end without an error, in batches of any size, every node that
-- was named has had a run of its drainer that ended without an error, with the node cordoned as
-- `AfterSuccess` says and, unless it was a dry run, its pods cleared as `RunCleared` says.
pub run_resolved_each :
    (env : Env) (poller : Poller) (user_home_dir : Result String) (kube_context : String)
    (opts : AppOptions) (nodes : List String) (ctx : Context) (w w' : World)
    → run_resolved env poller user_home_dir kube_context opts nodes ctx w ≡ (ok tt, w')
    → All (IsDrained env poller user_home_dir kube_context opts nodes) nodes
run_resolved_each env poller user_home_dir kube_context opts nodes ctx w w' =
    Returns-ok _ _ w (run_resolved-IsDrained env poller user_home_dir kube_context opts nodes ctx)
