-- ===== src/Drain/Uncordon/Begin.antt =====
-- The node up to the cordon, over a run.
use k8s_safed.Base.{◌≡◌, refl, ap, ◌⊎◌, inl, inr, String, Bool, true, false, List, ◌∷◌}
use k8s_safed.Cluster.Objects.{Node}
use k8s_safed.Cluster.Calls.{Context, Call, History, Request}
use k8s_safed.Cluster.Env.{Env, Result, ok, err}
use k8s_safed.Cluster.Exec.{World, Done, ask}
use k8s_safed.Cluster.Exec.Keeps.{Keeps-ask}
use k8s_safed.Cluster.Exec.Meets.{Post, Meets, Meets-pure, Meets-if, Meets-bind}
use k8s_safed.Cluster.Exec.Meets.More.{
  Meets-in_context, Meets-mono, Meets-else, Meets-and, Meets-frame,
}
use k8s_safed.Cluster.Exec.Since.{later, ask-Meets}
use k8s_safed.Cluster.Reads.{ReadClosed}
use k8s_safed.Cluster.Requests.{patch_node}
use k8s_safed.Cluster.Poll.{Poller}
use k8s_safed.Workload.{Workload}
use k8s_safed.Drain.Options.{Options}
use k8s_safed.Drain.Node.{cordon}
use k8s_safed.Drain.Rollout.Retry.Promises.{retry_transient-Meets}
use k8s_safed.Drain.Phases.{
  validate_node, discover_workloads, prepare_before_cordon, begin_cordoned_drain,
}
use k8s_safed.Drain.Phases.Reads.{discover_workloads-Keeps, prepare_before_cordon-Keeps}
use k8s_safed.Drain.Work.{WorkClosed, WorkClosed-ReadClosed}
use k8s_safed.Drain.Work.Restarts.{node_event-Meets}
use k8s_safed.Drain.Uncordon.{
  node_patches, Kept, Fresh, Kept-WorkClosed, Fresh-WorkClosed, AfterFailure, untouched, refused,
}

module _ (env : Env) (poller : Poller) (opts : Options) (ctx : Context) (before : History) where
  abbrev pub KeptAt : Node → List (String × Bool) → World → Type 0
  KeptAt = Kept env opts ctx before

  abbrev pub Failed : World → Type 0
  Failed = AfterFailure env opts ctx before

  pub validate_node-Kept :
      Meets
        (Fresh env opts ctx before)
        (λ node. KeptAt node (node_patches before))
        (λ _. Failed)
        (validate_node env opts ctx)
  unfolding validate_node
  validate_node-Kept = Meets-in_context _ _ (
      Meets-mono (λ node w h. record { returned = h.0; patched = h.1 }) (λ e w h. untouched h.1)
        (retry_transient-Meets (WorkClosed-ReadClosed (Fresh-WorkClosed env opts ctx before)) env
          opts ctx _ (Meets-and _ (ask-Meets _ _ before) (Keeps-ask _ _ (λ w h. h)))))

  module _ (node : Node) where
    abbrev pub Uncordoned : World → Type 0
    Uncordoned = KeptAt node (node_patches before)

    reads : ReadClosed Uncordoned
    reads = WorkClosed-ReadClosed (Kept-WorkClosed env opts ctx before node (node_patches before))

    pub discover-Kept :
        Meets Uncordoned (λ _. Uncordoned) (λ _. Failed) (discover_workloads env opts ctx)
    discover-Kept =
        Meets-else _ (discover_workloads-Keeps reads env opts ctx) (λ u h. untouched h.patched)

    pub prepare-Kept :
        (ws : List Workload)
        → Meets Uncordoned (λ _. Uncordoned) (λ _. Failed) (prepare_before_cordon env opts ctx ws)
    prepare-Kept ws =
        Meets-else _ (prepare_before_cordon-Keeps reads env opts ctx ws)
          (λ u h. untouched h.patched)

    -- The patches that go with what `cordon` returns.
    abbrev pub patches_if : Bool → List (String × Bool)
    patches_if true = (opts.node_name, true) ∷ node_patches before
    patches_if false = node_patches before

    abbrev pub Reason : Type 0
    Reason = (node.unschedulable ≡ true) ⊎ (opts.dry_run ≡ true)

    abbrev pub Begun : Bool → World → Type 0
    Begun b w = KeptAt node (patches_if b) w × (b ≡ false → Reason)

    after_patch :
        (r : Result Done) (w : World)
        → env.patched_node w.calls ctx opts.node_name true ≡ r
        → Uncordoned w
        → Post
            (λ _. KeptAt node (patches_if true))
            (λ _. Failed)
            (
              r,
              record w {
                calls = Call.request ctx (Request.patch_node opts.node_name true) ∷ w.calls;
              },
            )
    after_patch (ok done) w e h = record {
      returned = later _ h.returned;
      patched = ap (λ ps. (opts.node_name, true) ∷ ps) h.patched;
    }
    after_patch (err x) w e h = refused w.calls x e refl h.patched

    patched :
        Meets Uncordoned
          (λ _. KeptAt node (patches_if true))
          (λ _. Failed)
          (patch_node env ctx opts.node_name true)
    unfolding ask
    patched = record { at = λ w h. after_patch _ w refl h }

    cordon-Begun : Meets Uncordoned Begun (λ _. Failed) (cordon env opts ctx node)
    unfolding cordon
    cordon-Begun =
        Meets-if node.unschedulable _ _ (λ e. Meets-pure _ (λ w h. (h, λ _. inl e)))
          (λ _.
            Meets-if opts.dry_run _ _ (λ e. Meets-pure _ (λ w h. (h, λ _. inr e)))
              (λ _.
                Meets-bind (λ _. KeptAt node (patches_if true)) _ _ (Meets-in_context _ _ patched)
                  (λ _. Meets-pure true (λ w h. (h, λ e. cc)))))

    pub begun : (b : Bool) → WorkClosed (KeptAt node (patches_if b))
    begun b = Kept-WorkClosed env opts ctx before node (patches_if b)

    pub begin-Begun : Meets Uncordoned Begun (λ _. Failed) (begin_cordoned_drain env opts ctx node)
    unfolding begin_cordoned_drain
    begin-Begun = Meets-bind Begun _ _ cordon-Begun (λ b.
        Meets-bind (λ _. Begun b) _ _
          (Meets-mono (λ _ w h. h) (λ e w h. absurd h)
            (Meets-frame _ _ (node_event-Meets (begun b) env opts ctx _ _)))
          (λ _. Meets-pure b (λ w h. h)))
