-- ===== src/App/Whole/Done.antt =====
-- What an error-free command has done.
use k8s_safed.Base.{◌≡◌, ap, String, Option, List, All}
use k8s_safed.Cluster.Calls.{Context}
use k8s_safed.Cluster.Env.{Env, ok}
use k8s_safed.Cluster.Exec.{World}
use k8s_safed.Cluster.Exec.Meets.{
  Returns, Returns-pure, Returns-bind, Returns-any, Returns-ok, Returns-lift, Returns-in_context,
  Meets-bind,
}
use k8s_safed.Cluster.Exec.Meets.More.{Meets-mono, Meets-itself, Ran}
use k8s_safed.Cluster.Poll.{Poller}
use k8s_safed.Config.{Machine}
use k8s_safed.App.{AppOptions, validate_options, validate_targets}
use k8s_safed.App.Layers.{FlagChanged}
use k8s_safed.App.Nodes.{resolve_node_names}
use k8s_safed.App.Configure.{apply_config}
use k8s_safed.App.Resolved.Drained.{IsDrained, run_resolved-IsDrained}
use k8s_safed.App.Whole.{KubeFlags, effective_kube_context, run_targets, run_configured, run_app}

module _ (env : Env) (poller : Poller) (m : Machine) (flags : KubeFlags) (ctx : Context)
    (node_args : List String) where
  -- All that the command was to do with these options.
  pub record IsDone (opts : AppOptions) : Type 0 where
    pub valid : validate_options opts ≡ ok tt
    pub nodes : List String
    pub moment : World
    pub resolved : Ran (resolve_node_names env ctx opts.node_selector node_args) nodes moment
    pub targets : validate_targets opts nodes ≡ ok tt
    pub kube_context : String
    pub context : effective_kube_context flags ≡ ok kube_context
    pub drained : All (IsDrained env poller m.user_home_dir kube_context opts nodes) nodes

  abbrev Targeted : AppOptions → List String → Type 0
  Targeted opts nodes =
      (validate_targets opts nodes ≡ ok tt)
      × ((k : String) × ((effective_kube_context flags ≡ ok k)
            × All (IsDrained env poller m.user_home_dir k opts nodes) nodes))

  run_targets-Targeted :
      (opts : AppOptions) (nodes : List String)
      → Returns (λ _. Targeted opts nodes) (run_targets env poller m flags ctx opts nodes)
  unfolding run_targets
  run_targets-Targeted opts nodes =
      Returns-bind (λ _. validate_targets opts nodes ≡ ok tt) _ _ (Returns-lift _)
        (λ done fine.
          Returns-bind (λ k. effective_kube_context flags ≡ ok k) _ _
            (Returns-in_context _ _ (Returns-lift _))
            (λ k same.
              Meets-mono (λ _ w all. (fine, (k, (same, all)))) (λ e w h. h)
                (run_resolved-IsDrained env poller m.user_home_dir k opts nodes ctx)))

  run_configured-IsDone :
      (opts : AppOptions)
      → Returns (λ _. IsDone opts) (run_configured env poller m flags ctx node_args opts)
  unfolding run_configured
  run_configured-IsDone opts =
      Returns-bind (λ _. validate_options opts ≡ ok tt) _ _
        (Returns-bind (λ _. validate_options opts ≡ ok tt) _ _ (Returns-lift _)
          (λ done fine. Meets-mono (λ _ w h. fine) (λ e w h. h) (Returns-any _)))
        (λ done fine.
          Meets-bind (Ran (resolve_node_names env ctx opts.node_selector node_args)) _ _
            (Meets-mono (λ a w h. h) (λ e w h. tt) (Meets-itself _))
            (λ nodes. record {
              at = λ w ran.
                  (Meets-mono
                      (λ _ u t. record {
                        valid = fine;
                        nodes = nodes;
                        moment = w;
                        resolved = ran;
                        targets = t.0;
                        kube_context = t.1.0;
                        context = t.1.1.0;
                        drained = t.1.1.1;
                      })
                      (λ e u h. h) (run_targets-Targeted opts nodes)).at
                    w tt;
            }))

  pub run_app-IsDone :
      (opts : AppOptions) (changed : Option FlagChanged)
      → Returns
          (λ o'. (apply_config m opts changed ≡ (ok tt, o')) × IsDone o')
          (run_app env poller m flags ctx node_args opts changed)
  unfolding run_app
  run_app-IsDone opts changed =
      let (configured, opts') = apply_config m opts changed in
      Returns-bind (λ _. (configured ≡ ok tt) × IsDone opts') _ _
        (Returns-bind (λ _. configured ≡ ok tt) _ _ (Returns-lift _)
          (λ done fine. Meets-mono (λ _ w h. (fine, h)) (λ e w h. h) (run_configured-IsDone opts')))
        (λ done h. Returns-pure _ (ap (λ r. (r, opts')) h.0, h.1))

-- When the whole command ends without an error, the options it ran with are the configured ones and
-- valid, and each of the nodes that `resolve_node_names` gave for them has had a run of its drainer
-- that ended without an error, with the node cordoned as `AfterSuccess` says and, unless it was a
-- dry run, its pods cleared as `RunCleared` says.
pub run_app_succeeded :
    (env : Env) (poller : Poller) (m : Machine) (flags : KubeFlags) (ctx : Context)
    (node_args : List String) (opts o' : AppOptions) (changed : Option FlagChanged) (w w' : World)
    → run_app env poller m flags ctx node_args opts changed w ≡ (ok o', w')
    → (apply_config m opts changed ≡ (ok tt, o')) × IsDone env poller m flags ctx node_args o'
run_app_succeeded env poller m flags ctx node_args opts o' changed w w' =
    Returns-ok
      (λ o. (apply_config m opts changed ≡ (ok tt, o)) × IsDone env poller m flags ctx node_args o)
      _ w (run_app-IsDone env poller m flags ctx node_args opts changed)
