-- ===== src/App/Whole.antt =====
-- `Run` and `EffectiveKubeContext` of internal/drainapp/app.go: the whole command.
pub mod Untouched
pub mod Refused
pub mod Done
use k8s_safed.Base.{String, Option, none, some, List, ◌==◌, if◌then◌else◌}
use k8s_safed.Cluster.Calls.{Context}
use k8s_safed.Cluster.Env.{Env, Result, ok}
use k8s_safed.Cluster.Exec.{Exec, pure, lift, in_context, ◌>>=◌, ◌>>◌}
use k8s_safed.Cluster.Poll.{Poller}
use k8s_safed.Config.{Machine}
use k8s_safed.App.{AppOptions, validate_options, validate_targets}
use k8s_safed.App.Layers.{FlagChanged}
use k8s_safed.App.Nodes.{resolve_node_names}
use k8s_safed.App.Configure.{Configured, apply_config}
use k8s_safed.App.Resolved.{run_resolved}

-- genericclioptions.ConfigFlags: the --context flag, and what its methods return.
pub record KubeFlags : Type 0 where
  pub context : Option String
  -- k8s.NewClient
  pub client : Result (Unit {0})
  -- CurrentContext of ToRawKubeConfigLoader().RawConfig()
  pub current_context : Result String

unfoldable pub effective_kube_context : KubeFlags → Result String
effective_kube_context flags = elim flags.context [
  | none ↦ flags.current_context
  | some name ↦ if name == "" then flags.current_context else ok name
]

module _ (env : Env) (poller : Poller) (m : Machine) (flags : KubeFlags) where
  unfoldable pub run_targets : Context → AppOptions → List String → Exec (Unit {0})
  run_targets ctx opts nodes =
      lift (validate_targets opts nodes)
      >> (in_context "resolving kube context" (lift (effective_kube_context flags))
          >>= λ kube_context. run_resolved env poller m.user_home_dir kube_context opts nodes ctx)

  -- After `ApplyConfig`.
  unfoldable pub run_configured : Context → List String → AppOptions → Exec (Unit {0})
  run_configured ctx node_args opts =
      lift (validate_options opts)
      >> in_context "failed to create Kubernetes client" (lift flags.client)
      >> (resolve_node_names env ctx opts.node_selector node_args >>= run_targets ctx opts)

  -- The options that an error-free run leaves in `opts`.
  unfoldable pub run_app : Context → List String → AppOptions → Option FlagChanged → Exec AppOptions
  run_app ctx node_args opts changed =
      let (configured, opts') = apply_config m opts changed in
      lift configured >> run_configured ctx node_args opts' >> pure opts'
