-- ===== src/Drain/Uncordon.antt =====
-- What a drain does to the schedulability of its node.
pub mod Begin
pub mod Whole
use k8s_safed.Base.{
  ◌≡◌, refl, ap, ◌∙◌, ◌⊎◌, inl, inr, ℕ, zero, suc, String, Bool, true, false, Option, none, some,
  List, [], ◌∷◌, arith, ◌&&◌,
}
use k8s_safed.Cluster.Objects.{Node}
use k8s_safed.Cluster.Calls
use k8s_safed.Cluster.Calls.{Context, Call, History, Request, background, with_timeout}
use k8s_safed.Cluster.Env.{Env, Error, Result, ok, err}
use k8s_safed.Cluster.Errors.{is_transient}
use k8s_safed.Cluster.Exec.{World, Exec, Done}
use k8s_safed.Cluster.Exec.Keeps.{Keeps, keeps_rules, Keeps-bind, Keeps-pure, Keeps-frame}
use k8s_safed.Cluster.Exec.Meets.{
  Post, Meets, Meets-pure, Meets-raise, Meets-if, Meets-bind, Meets-try_catch, Meets-Keeps,
}
use k8s_safed.Cluster.Exec.Meets.More.{Meets-else, Meets-and, Meets-frame}
use k8s_safed.Cluster.Exec.Since.{Grown, same, grown, Since, later, Since-Grown, Got, ask-Meets}
use k8s_safed.Cluster.Reads.{ReadClosed, wait_or_done-Keeps}
use k8s_safed.Cluster.Requests.{get_node}
use k8s_safed.Cluster.Poll.{Poller}
use k8s_safed.Workload.{Workload}
use k8s_safed.Drain.Options.{Options}
use k8s_safed.Drain.Work.{IsWork, WorkClosed, WorkClosed-ReadClosed}

-- The patches of nodes in a history, the newest first.
abbrev pub node_patches : History → List (String × Bool)
node_patches [] = []
node_patches (Call.request ctx (Request.patch_node name b) ∷ h) = (name, b) ∷ node_patches h
node_patches (c ∷ h) = node_patches h

node_patches-IsWork : (c : Call) (h : History) → IsWork c → node_patches (c ∷ h) ≡ node_patches h
node_patches-IsWork (Call.request ctx (Request.patch_node name b)) h w = absurd w
node_patches-IsWork c h w = refl

module _ (env : Env) (opts : Options) (ctx : Context) (before : History) where
  -- Since `before`, the server returned the node so, and the node was patched so.
  pub record Kept (node : Node) (patches : List (String × Bool)) (w : World) : Type 0 where
    pub returned :
        Since
          (λ h. env.node_of h ctx opts.node_name)
          (Call.request ctx (Request.get_node opts.node_name))
          node
          before
          w.calls
    pub patched : node_patches w.calls ≡ patches

  pub data AfterSuccess (w : World) : Type 0 where
    -- The node was cordoned already, or this was a dry run.
    skipped :
        (node : Node)
        → (node.unschedulable ≡ true) ⊎ (opts.dry_run ≡ true)
        → Kept node (node_patches before) w
        → AfterSuccess w
    drained : node_patches w.calls ≡ (opts.node_name, true) ∷ node_patches before → AfterSuccess w

  pub data AfterFailure (w : World) : Type 0 where
    untouched : node_patches w.calls ≡ node_patches before → AfterFailure w
    -- The server did not accept the cordon, which was the last call.
    refused :
        (h : History) (e : Error)
        → env.patched_node h ctx opts.node_name true ≡ err e
        → w.calls ≡ Call.request ctx (Request.patch_node opts.node_name true) ∷ h
        → node_patches h ≡ node_patches before
        → AfterFailure w
    left :
        opts.uncordon_on_failure ≡ false
        → node_patches w.calls ≡ (opts.node_name, true) ∷ node_patches before
        → AfterFailure w
    undone :
        opts.uncordon_on_failure ≡ true
        → node_patches w.calls
          ≡ (opts.node_name, false) ∷ (opts.node_name, true) ∷ node_patches before
        → AfterFailure w

  pub Kept-WorkClosed :
      (node : Node) (patches : List (String × Bool)) → WorkClosed (Kept node patches)
  Kept-WorkClosed node patches = record {
    works = λ c k w h. record {
      returned = later c h.returned;
      patched = node_patches-IsWork c w.calls k ∙ h.patched;
    };
    effects = λ w files restarted h. record { returned = h.returned; patched = h.patched };
  }

  abbrev pub Fresh : World → Type 0
  Fresh w = Grown before w.calls × (node_patches w.calls ≡ node_patches before)

  pub Fresh-WorkClosed : WorkClosed Fresh
  Fresh-WorkClosed = record {
    works = λ c k w h. (grown c h.0, node_patches-IsWork c w.calls k ∙ h.1);
    effects = λ w files restarted h. h;
  }
