-- ===== src/Drain/Uncordon/Whole.antt =====
-- The cordon and its undoing, over a whole run.
use k8s_safed.Base.{if◌then◌else◌, refl, ap, String, Bool, true, false, List, ◌∷◌, ◌&&◌}
use k8s_safed.Cluster.Objects.{Node}
use k8s_safed.Cluster.Calls.{Context, History, background}
use k8s_safed.Cluster.Env.{Env, Error}
use k8s_safed.Cluster.Exec.{World, Done, pure, try_catch}
use k8s_safed.Cluster.Exec.Keeps.{Keeps-frame}
use k8s_safed.Cluster.Exec.Meets.{
  Post, Meets, Meets-pure, Meets-raise, Meets-if, Meets-bind, Meets-try_catch, Meets-Keeps,
}
use k8s_safed.Cluster.Exec.Meets.More.{Meets-mono, Meets-ignore, Meets-ask, Meets-frame}
use k8s_safed.Cluster.Exec.Since.{same, later}
use k8s_safed.Cluster.Poll.{Poller}
use k8s_safed.Workload.{Workload}
use k8s_safed.Drain.Options.{Options}
use k8s_safed.Drain.Node.{uncordon}
use k8s_safed.Drain.Phases.{drain_cordoned, clean_up, drain_context, run}
use k8s_safed.Drain.Work.{WorkClosed}
use k8s_safed.Drain.Work.Restarts.{node_event-Meets}
use k8s_safed.Drain.Work.Evictions.{drain_cordoned-Keeps}
use k8s_safed.Drain.Uncordon.{
  node_patches, Kept, Fresh, Kept-WorkClosed, AfterSuccess, AfterFailure, skipped, drained,
  untouched, left, undone,
}
use k8s_safed.Drain.Uncordon.Begin.{
  KeptAt, Failed, patches_if, Begun, begun, validate_node-Kept, discover-Kept, prepare-Kept,
  begin-Begun,
}

module _ (env : Env) (poller : Poller) (opts : Options) (ctx : Context) (before : History)
    (node : Node) where
  abbrev Undone : World → Type 0
  Undone =
      KeptAt env poller opts ctx before node
        ((opts.node_name, false) ∷ patches_if env poller opts ctx before node true)

  uncordon-Undone :
      Meets
        (KeptAt env poller opts ctx before node (patches_if env poller opts ctx before node true))
        (λ _. Undone)
        (λ _ _. ⊥)
        (uncordon env opts)
  unfolding uncordon
  uncordon-Undone = Meets-ignore _ (
      Meets-ask _ _ (λ w h. record {
        returned = later _ h.returned;
        patched = ap (λ ps. (opts.node_name, false) ∷ ps) h.patched;
      }))

  -- The node is as a failed run may leave it, whatever is done besides patching nodes.
  abbrev Settled : World → Type 0
  Settled w =
      (patches : List (String × Bool)) × (KeptAt env poller opts ctx before node patches w
        × ((u : World)
            → KeptAt env poller opts ctx before node patches u
            → Failed env poller opts ctx before u))

  Settled-WorkClosed : WorkClosed Settled
  Settled-WorkClosed = record {
    works =
        λ c k w h. (h.0, ((Kept-WorkClosed env opts ctx before node h.0).works c k w h.1.0, h.1.1));
    effects = λ w files restarted h. (
      h.0,
      ((Kept-WorkClosed env opts ctx before node h.0).effects w files restarted h.1.0, h.1.1),
    );
  }

  settle-Meets :
      (b : Bool)
      → Meets
          (Begun env poller opts ctx before node b)
          (λ _. Settled)
          (λ _ _. ⊥)
          (if b && opts.uncordon_on_failure then uncordon env opts else pure tt)
  settle-Meets true =
      Meets-if opts.uncordon_on_failure _ _
        (λ asked.
          Meets-mono (λ _ w h. (_, (h.0, λ u k. undone asked k.patched))) (λ e w h. h)
            (Meets-frame _ _ uncordon-Undone))
        (λ kept. Meets-pure tt (λ w h. (_, (h.0, λ u k. left kept k.patched))))
  settle-Meets false = Meets-pure tt (λ w h. (_, (h.0, λ u k. untouched k.patched)))

  clean_up-Meets :
      (b : Bool) (e : Error)
      → Meets {A = Done}
          (Begun env poller opts ctx before node b)
          (λ _ _. ⊥)
          (λ _. (Failed env poller opts ctx before))
          (clean_up env poller opts b e)
  unfolding clean_up
  clean_up-Meets b e =
      Meets-mono (λ _ w h. h) (λ e w h. h)
        (Meets-bind (λ _. Settled) _ _
          (Meets-bind (λ _. Settled) _ _
            (Meets-mono (λ _ w h. h) (λ e w h. absurd h) (settle-Meets b))
            (λ _.
              Meets-mono (λ _ w h. h) (λ e w h. absurd h)
                (node_event-Meets Settled-WorkClosed env opts background "DrainFailed" "Warning")))
          (λ _. Meets-raise e (λ w h. h.1.1 w h.1.0)))

  drain-Meets :
      (b : Bool) (prepared : List Workload × List Workload)
      → Meets
          (Begun env poller opts ctx before node b)
          (λ _. AfterSuccess env opts ctx before)
          (λ _. (Failed env poller opts ctx before))
          (try_catch
            (drain_cordoned env poller opts ctx prepared)
            pure
            (clean_up env poller opts b))
  drain-Meets b prepared =
      Meets-try_catch (λ _. Begun env poller opts ctx before node b)
        (λ _. Begun env poller opts ctx before node b) _ _ _
        (Meets-Keeps _ (
          Keeps-frame _ _ (
            drain_cordoned-Keeps ((begun env poller opts ctx before node) b) env poller opts ctx
              prepared)))
        (λ done. Meets-pure done (λ w h. success b w h))
        (λ e. Meets-mono (λ _ w h. absurd h) (λ e w h. h) (clean_up-Meets b e))
    where
      success :
          (b : Bool) (w : World)
          → Begun env poller opts ctx before node b w
          → AfterSuccess env opts ctx before w
      success true w h = drained h.0.patched
      success false w h = skipped node (h.1 refl) h.0

pub run-Meets :
    (env : Env) (poller : Poller) (opts : Options) (outer : Context) (before : History)
    → let ctx = drain_context env poller opts outer in
      Meets
        (Fresh env opts ctx before)
        (λ _. AfterSuccess env opts ctx before)
        (λ _. AfterFailure env opts ctx before)
        (run env poller opts outer)
unfolding run
run-Meets env poller opts outer before =
    let ctx = drain_context env poller opts outer in
    Meets-bind (λ node. Kept env opts ctx before node (node_patches before)) _ _
      (validate_node-Kept env poller opts ctx before)
      (λ node.
        Meets-bind (λ _. Kept env opts ctx before node (node_patches before)) _ _
          (discover-Kept env poller opts ctx before node)
          (λ ws.
            Meets-bind (λ _. Kept env opts ctx before node (node_patches before)) _ _
              (prepare-Kept env poller opts ctx before node ws)
              (λ prepared.
                Meets-bind (Begun env poller opts ctx before node) _ _
                  (begin-Begun env poller opts ctx before node)
                  (λ b. drain-Meets env poller opts ctx before node b prepared))))

-- In any environment, a run that succeeds has cordoned the node, unless the server returned it as
-- cordoned already or this is a dry run. A run that fails has not patched the node, or its cordon
-- was refused, or it has cordoned the node and then, exactly under UncordonOnFailure, has asked for
-- the undoing. No run patches another node, or a node more often.
pub run_uncordons :
    (env : Env) (poller : Poller) (opts : Options) (outer : Context) (w : World)
    → Post
        (λ _. AfterSuccess env opts (drain_context env poller opts outer) w.calls)
        (λ _. AfterFailure env opts (drain_context env poller opts outer) w.calls)
        (run env poller opts outer w)
run_uncordons env poller opts outer w =
    (run-Meets env poller opts outer w.calls).at w (same refl, refl)
