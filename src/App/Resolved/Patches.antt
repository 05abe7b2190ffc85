-- ===== src/App/Resolved/Patches.antt =====
-- Which nodes the drains of several nodes patch.
use mathlib.Core.List.{append_assoc}
use k8s_safed.Base.{
  ◌≡◌, refl, sym, ◌∙◌, ap, String, Bool, true, false, List, [], ◌∷◌, ◌++◌, All, All-mono,
  All-append, Listed, All-Listed,
}
use k8s_safed.Cluster.Calls.{Context, History}
use k8s_safed.Cluster.Env.{Env, Result, ok, err}
use k8s_safed.Cluster.Exec.{World, Done}
use k8s_safed.Cluster.Exec.Keeps.{Keeps}
use k8s_safed.Cluster.Exec.Meets.{Post}
use k8s_safed.Cluster.Poll.{Poller}
use k8s_safed.Drain.Options.{Options}
use k8s_safed.Drain.Phases.{drain_context, run}
use k8s_safed.Drain.Uncordon.{
  node_patches, AfterSuccess, AfterFailure, skipped, drained, untouched, refused, left, undone,
}
use k8s_safed.Drain.Uncordon.Whole.{run_uncordons}
use k8s_safed.App.{AppOptions, drainer_options}
use k8s_safed.App.Resolved.{run_resolved}
use k8s_safed.App.Resolved.Keeps.{run_resolved-Keeps}

-- Since `before`, the nodes with these names were patched only.
pub record OnlyPatched (names : List String) (before : History) (w : World) : Type 0 where
  pub patches : List (String × Bool)
  pub patched : node_patches w.calls ≡ patches ++ node_patches before
  pub listed : All (λ p. Listed p.0 names) patches

module _ (names : List String) (before : History) (n : String) (here : Listed n names) where
  more_patches :
      (u w : World) (new : List (String × Bool))
      → OnlyPatched names before u
      → All (λ p. Listed p.0 names) new
      → node_patches w.calls ≡ new ++ node_patches u.calls
      → OnlyPatched names before w
  more_patches u w new h l e = record {
    patches = new ++ h.patches;
    patched = e ∙ ap (λ ps. new ++ ps) h.patched ∙ sym (append_assoc new h.patches _);
    listed = All-append _ new h.patches l h.listed;
  }

  module _ (env : Env) (opts : Options) (ctx : Context) (same_name : opts.node_name ≡ n) where
    own : Listed opts.node_name names
    own = rw same_name here

    after_success :
        (u w : World)
        → OnlyPatched names before u
        → AfterSuccess env opts ctx u.calls w
        → OnlyPatched names before w
    after_success u w h (skipped node why kept) = more_patches u w [] h tt kept.patched
    after_success u w h (drained e) = more_patches u w ((opts.node_name, true) ∷ []) h (own, tt) e

    after_failure :
        (u w : World)
        → OnlyPatched names before u
        → AfterFailure env opts ctx u.calls w
        → OnlyPatched names before w
    after_failure u w h (untouched e) = more_patches u w [] h tt e
    after_failure u w h (refused k e answer calls rest) =
        more_patches u w ((opts.node_name, true) ∷ []) h (own, tt)
          (rw calls (ap (λ ps. (opts.node_name, true) ∷ ps) rest))
    after_failure u w h (left kept e) = more_patches u w ((opts.node_name, true) ∷ []) h (own, tt) e
    after_failure u w h (undone asked e) =
        more_patches u w ((opts.node_name, false) ∷ (opts.node_name, true) ∷ []) h (own, (own, tt))
          e

    after :
        (u : World) (r : Result Done) (w : World)
        → OnlyPatched names before u
        → Post
            (λ _. AfterSuccess env opts ctx u.calls)
            (λ _. AfterFailure env opts ctx u.calls)
            (r, w)
        → OnlyPatched names before w
    after u (ok done) w h k = after_success u w h k
    after u (err e) w h k = after_failure u w h k

  run-OnlyPatched :
      (env : Env) (poller : Poller) (opts : Options) (ctx : Context)
      → opts.node_name ≡ n
      → Keeps (OnlyPatched names before) (run env poller opts ctx)
  run-OnlyPatched env poller opts ctx same_name = record {
    at = λ u h.
        let (r, w) = run env poller opts ctx u in
        after env opts (drain_context env poller opts ctx) same_name u r w h
          (run_uncordons env poller opts ctx u);
  }

-- Whatever happens in the drains of several nodes, no node is cordoned or uncordoned but those that
-- were named.
pub run_resolved-OnlyPatched :
    (env : Env) (poller : Poller) (user_home_dir : Result String) (kube_context : String)
    (opts : AppOptions) (nodes : List String) (ctx : Context) (w : World)
    → OnlyPatched nodes w.calls
        (run_resolved env poller user_home_dir kube_context opts nodes ctx w).1
unfolding drainer_options
run_resolved-OnlyPatched env poller user_home_dir kube_context opts nodes ctx w =
    (run_resolved-Keeps (OnlyPatched nodes w.calls) env poller user_home_dir kube_context opts nodes
        ctx
        (All-mono _ _ nodes
          (λ n here inner path.
            run-OnlyPatched nodes w.calls n here env poller
              (drainer_options opts nodes kube_context n path) inner refl)
          (All-Listed nodes))).at
      w (record { patches = []; patched = refl; listed = tt })
