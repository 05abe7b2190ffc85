-- ===== src/App.antt =====
-- internal/drainapp/app.go: the options of the command, their validation, and the options of the
-- drainer of a node.
pub mod Valid
pub mod Nodes
pub mod Layers
pub mod Configure
pub mod Resolved
pub mod Whole
use k8s_safed.Base.{
  String, Bool, true, false, List, [], ◌∷◌, not, ◌&&◌, ◌||◌, ◌==◌, ltb, length, if◌then◌else◌,
}
use k8s_safed.Base.Int.{ℤ, pos, negsuc, int_ltb}
use k8s_safed.Base.Maps.{Map, insert}
use k8s_safed.Base.Text.{append_text}
use k8s_safed.Cluster.Objects.{Duration}
use k8s_safed.Cluster.Env.{Result, ok, err, message}
use k8s_safed.Drain.Options.{Options, PreflightMode, warn, strict, off}

-- Options
pub record AppOptions : Type 0 where
  pub dry_run : Bool
  pub timeout : Duration
  pub skip_daemon_sets : Bool
  pub delete_empty_dir : Bool
  pub grace_period : ℤ
  pub rollout_timeout : Duration
  pub pod_vacate_timeout : Duration
  pub eviction_timeout : Duration
  pub pdb_retry_interval : Duration
  pub poll_interval : Duration
  pub force : Bool
  pub force_delete_standalone : Bool
  pub max_concurrency : ℤ
  pub log_format : String
  pub uncordon_on_failure : Bool
  pub node_selector : String
  pub node_concurrency : ℤ
  pub preflight : String
  pub skip_workloads : List String
  pub only_workloads : List String
  pub profile : String
  pub config_file : String
  pub mode : String
  pub stateful_name_patterns : List String
  pub emit_events : Bool
  pub resume : Bool
  pub checkpoint_path : String

-- A PreflightMode is a text, of which the drainer tests for "off" and "strict".
unfoldable pub preflight_mode : String → PreflightMode
preflight_mode text = if text == "off" then off else if text == "strict" then strict else warn

unfoldable pub insert_all : Map Bool → List String → Map Bool
insert_all m [] = m
insert_all m (s ∷ ss) = insert_all (insert s true m) ss

unfoldable pub slice_to_set : List String → Map Bool
unfolding insert_all
slice_to_set ss = insert_all [] ss

unfoldable pub is_preflight_mode : String → Bool
is_preflight_mode text = text == "warn" || (text == "strict" || text == "off")

unfoldable pub is_log_format : String → Bool
is_log_format text = text == "plain" || text == "json"

-- The loop over the durations: the first that is negative.
unfoldable pub check_durations : List (String × Duration) → Result (Unit {0})
check_durations [] = ok tt
check_durations ((name, value) ∷ checks) =
    if int_ltb value (pos 0)
    then err (message (append_text name " must be >= 0"))
    else check_durations checks

unfoldable pub validate_options : AppOptions → Result (Unit {0})
validate_options opts =
    if not (is_preflight_mode opts.preflight)
    then err (message "invalid --preflight")
    else if not (is_log_format opts.log_format)
    then err (message "invalid --log-format")
    else if int_ltb opts.max_concurrency (pos 0)
    then err (message "--max-concurrency must be >= 0")
    else if int_ltb opts.node_concurrency (pos 0)
    then err (message "--node-concurrency must be >= 0")
    else if int_ltb opts.grace_period (negsuc 0)
    then err (message "--grace-period must be -1 or >= 0")
    else check_durations (
        ("--timeout", opts.timeout)
        ∷ ("--rollout-timeout", opts.rollout_timeout)
        ∷ ("--pod-vacate-timeout", opts.pod_vacate_timeout)
        ∷ ("--eviction-timeout", opts.eviction_timeout)
        ∷ ("--pdb-retry-interval", opts.pdb_retry_interval)
        ∷ ("--poll-interval", opts.poll_interval)
        ∷ [])

unfoldable pub validate_targets : AppOptions → List String → Result (Unit {0})
validate_targets opts nodes =
    if not (opts.checkpoint_path == "") && ltb 1 (length nodes)
    then err (message "--checkpoint-path can only be used when draining a single node")
    else ok tt

-- The options that `drainNode` gives to NewDrainer, for the path of the node's checkpoint.
unfoldable pub drainer_options : AppOptions → List String → String → String → String → Options
drainer_options opts nodes kube_context node_name checkpoint_path = record {
  node_name = node_name;
  dry_run = opts.dry_run;
  timeout = opts.timeout;
  skip_daemon_sets = opts.skip_daemon_sets;
  delete_empty_dir = opts.delete_empty_dir;
  grace_period = opts.grace_period;
  rollout_timeout = opts.rollout_timeout;
  force = opts.force || opts.force_delete_standalone;
  force_delete_standalone = opts.force_delete_standalone;
  poll_interval = opts.poll_interval;
  pod_vacate_timeout = opts.pod_vacate_timeout;
  eviction_timeout = opts.eviction_timeout;
  pdb_retry_interval = opts.pdb_retry_interval;
  max_concurrency = opts.max_concurrency;
  uncordon_on_failure = opts.uncordon_on_failure;
  preflight = preflight_mode opts.preflight;
  stateful_name_patterns = opts.stateful_name_patterns;
  skip_workloads = slice_to_set opts.skip_workloads;
  only_workloads = slice_to_set opts.only_workloads;
  emit_events = opts.emit_events;
  resume = opts.resume;
  checkpoint_path = checkpoint_path;
  checkpoint_context = kube_context;
  coordinated = ltb 1 (length nodes);
}
