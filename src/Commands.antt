-- ===== src/Commands.antt =====
-- cmd/drain.go: the drain command. The flags are parsed by the command line library, which gives
-- the options and which flags were set.
pub mod Specs
pub mod Copies
pub mod Completed
use k8s_safed.Base.{
  String, Bool, true, false, Option, some, List, [], not, ◌&&◌, ◌==◌, length, ltb, nat_eq,
  if◌then◌else◌,
}
use k8s_safed.Base.Int.{ℤ, pos, negsuc}
use k8s_safed.Cluster.Objects.{Duration}
use k8s_safed.Cluster.Calls.{Context}
use k8s_safed.Cluster.Env.{Env, Result, message}
use k8s_safed.Cluster.Exec.{Exec, pure, raise, ◌>>=◌}
use k8s_safed.Cluster.Poll.{Poller}
use k8s_safed.Config.{Machine}
use k8s_safed.Drain.Options.{seconds}
use k8s_safed.App.{AppOptions, validate_options, validate_targets}
use k8s_safed.App.Layers.{FlagChanged}
use k8s_safed.App.Configure.{Configured, apply_config}
use k8s_safed.App.Whole.{KubeFlags, run_app}

-- drainOptions
pub record DrainOptions : Type 0 where
  pub dry_run : Bool
  pub timeout : Duration
  pub skip_daemon_sets : Bool
  pub delete_empty_dir : Bool
  pub grace_period : ℤ
  pub rollout_timeout : Duration
  pub pod_vacate_timeout : Duration
  pub eviction_timeout : Duration
  pub pdb_retry_interval : Duration
  pub poll_interval : Duration
  pub force : Bool
  pub force_delete_standalone : Bool
  pub max_concurrency : ℤ
  pub log_format : String
  pub uncordon_on_failure : Bool
  pub node_selector : String
  pub node_concurrency : ℤ
  pub preflight : String
  pub skip_workloads : List String
  pub only_workloads : List String
  pub profile : String
  pub config_file : String
  pub mode : String
  pub stateful_name_patterns : List String
  pub emit_events : Bool
  pub resume : Bool
  pub checkpoint_path : String

-- The values of the flags that are not given.
unfoldable pub flag_defaults : DrainOptions
flag_defaults = record {
  dry_run = false;
  timeout = pos 0;
  skip_daemon_sets = true;
  delete_empty_dir = false;
  grace_period = negsuc 0;
  rollout_timeout = seconds 300;
  pod_vacate_timeout = seconds 120;
  eviction_timeout = seconds 300;
  pdb_retry_interval = seconds 5;
  poll_interval = seconds 5;
  force = false;
  force_delete_standalone = false;
  max_concurrency = pos 1;
  log_format = "plain";
  uncordon_on_failure = false;
  node_selector = "";
  node_concurrency = pos 1;
  preflight = "warn";
  skip_workloads = [];
  only_workloads = [];
  profile = "";
  config_file = "";
  mode = "";
  stateful_name_patterns = [];
  emit_events = false;
  resume = false;
  checkpoint_path = "";
}

unfoldable pub to_app_options : DrainOptions → AppOptions
to_app_options opts = record {
  dry_run = opts.dry_run;
  timeout = opts.timeout;
  skip_daemon_sets = opts.skip_daemon_sets;
  delete_empty_dir = opts.delete_empty_dir;
  grace_period = opts.grace_period;
  rollout_timeout = opts.rollout_timeout;
  pod_vacate_timeout = opts.pod_vacate_timeout;
  eviction_timeout = opts.eviction_timeout;
  pdb_retry_interval = opts.pdb_retry_interval;
  poll_interval = opts.poll_interval;
  force = opts.force;
  force_delete_standalone = opts.force_delete_standalone;
  max_concurrency = opts.max_concurrency;
  log_format = opts.log_format;
  uncordon_on_failure = opts.uncordon_on_failure;
  node_selector = opts.node_selector;
  node_concurrency = opts.node_concurrency;
  preflight = opts.preflight;
  skip_workloads = opts.skip_workloads;
  only_workloads = opts.only_workloads;
  profile = opts.profile;
  config_file = opts.config_file;
  mode = opts.mode;
  stateful_name_patterns = opts.stateful_name_patterns;
  emit_events = opts.emit_events;
  resume = opts.resume;
  checkpoint_path = opts.checkpoint_path;
}

unfoldable pub apply_app_options : DrainOptions → AppOptions → DrainOptions
apply_app_options opts app_opts = record opts {
  dry_run = app_opts.dry_run;
  timeout = app_opts.timeout;
  skip_daemon_sets = app_opts.skip_daemon_sets;
  delete_empty_dir = app_opts.delete_empty_dir;
  grace_period = app_opts.grace_period;
  rollout_timeout = app_opts.rollout_timeout;
  pod_vacate_timeout = app_opts.pod_vacate_timeout;
  eviction_timeout = app_opts.eviction_timeout;
  pdb_retry_interval = app_opts.pdb_retry_interval;
  poll_interval = app_opts.poll_interval;
  force = app_opts.force;
  force_delete_standalone = app_opts.force_delete_standalone;
  max_concurrency = app_opts.max_concurrency;
  log_format = app_opts.log_format;
  uncordon_on_failure = app_opts.uncordon_on_failure;
  node_selector = app_opts.node_selector;
  node_concurrency = app_opts.node_concurrency;
  preflight = app_opts.preflight;
  skip_workloads = app_opts.skip_workloads;
  only_workloads = app_opts.only_workloads;
  profile = app_opts.profile;
  config_file = app_opts.config_file;
  mode = app_opts.mode;
  stateful_name_patterns = app_opts.stateful_name_patterns;
  emit_events = app_opts.emit_events;
  resume = app_opts.resume;
  checkpoint_path = app_opts.checkpoint_path;
}

unfoldable pub validate_drain_targets : DrainOptions → List String → Result (Unit {0})
validate_drain_targets opts nodes = validate_targets (to_app_options opts) nodes

unfoldable pub validate_drain_options : DrainOptions → Result (Unit {0})
validate_drain_options opts = validate_options (to_app_options opts)

-- `applyConfig`: what `ApplyConfig` changed is copied back, also when it fails.
unfoldable pub apply_command_config :
    Machine → DrainOptions → Option FlagChanged → Result (Unit {0}) × DrainOptions
apply_command_config m opts changed =
    let (result, app_opts) = apply_config m (to_app_options opts) changed in
    (result, apply_app_options opts app_opts)

abbrev pub is_empty : List String → Bool
is_empty ss = nat_eq (length ss) 0

module _ (env : Env) (poller : Poller) (m : Machine) (flags : KubeFlags) (ctx : Context)
    (args : List String) (opts : DrainOptions) (changed : FlagChanged) where
  -- The options after it, when it ends without an error.
  unfoldable pub run_drain : Exec DrainOptions
  run_drain =
      run_app env poller m flags ctx args (to_app_options opts) (some changed) >>= λ app_opts.
      pure (apply_app_options opts app_opts)

  -- RunE
  unfoldable pub drain_command : Exec DrainOptions
  drain_command =
      if is_empty args && opts.node_selector == ""
      then raise (message "must specify at least one node name or --selector")
      else if not (is_empty args) && not (opts.node_selector == "")
      then raise (message "cannot specify both node names and --selector")
      else if not (is_empty opts.skip_workloads) && not (is_empty opts.only_workloads)
      then raise (message "cannot use both --skip-workload and --only-workload")
      else run_drain
