-- ===== src/App/Configure/Flags.antt =====
-- What of the options `apply_config` never changes.
use k8s_safed.Commands.Specs.{config_flags, drain_option_specs}
use k8s_safed.Commands.Specs.Decide.{apply_config-same}
use k8s_safed.Base.{
  ◌≡◌, refl, some, false, ◌==◌, subst, sym, String, Bool, true, Option, List, ◌++◌, arith,
  if◌then◌else◌,
}
use k8s_safed.Config.{Profile, Machine}
use k8s_safed.App.{AppOptions}
use k8s_safed.App.Layers.{FlagChanged, or_unchanged}
use k8s_safed.App.Layers.Order.{IsLayered, all_patterns, apply_layers-IsLayered}
use k8s_safed.App.Configure.{apply_config}
use k8s_safed.App.Configure.Sources.{apply_config-Applies}

-- An option whose flag was set is the same, and so are those that no profile can set.
pub record KeepsFlags (changed : FlagChanged) (o o' : AppOptions) : Type 0 where
  pub timeout : changed "timeout" ≡ true → o'.timeout ≡ o.timeout
  pub rollout_timeout : changed "rollout-timeout" ≡ true → o'.rollout_timeout ≡ o.rollout_timeout
  pub pod_vacate_timeout :
      changed "pod-vacate-timeout" ≡ true → o'.pod_vacate_timeout ≡ o.pod_vacate_timeout
  pub eviction_timeout :
      changed "eviction-timeout" ≡ true → o'.eviction_timeout ≡ o.eviction_timeout
  pub pdb_retry_interval :
      changed "pdb-retry-interval" ≡ true → o'.pdb_retry_interval ≡ o.pdb_retry_interval
  pub poll_interval : changed "poll-interval" ≡ true → o'.poll_interval ≡ o.poll_interval
  pub max_concurrency : changed "max-concurrency" ≡ true → o'.max_concurrency ≡ o.max_concurrency
  pub node_concurrency :
      changed "node-concurrency" ≡ true → o'.node_concurrency ≡ o.node_concurrency
  pub preflight : changed "preflight" ≡ true → o'.preflight ≡ o.preflight
  pub log_format : changed "log-format" ≡ true → o'.log_format ≡ o.log_format
  pub dry_run : changed "dry-run" ≡ true → o'.dry_run ≡ o.dry_run
  pub force : changed "force" ≡ true → o'.force ≡ o.force
  pub skip_daemon_sets :
      changed "ignore-daemonsets" ≡ true → o'.skip_daemon_sets ≡ o.skip_daemon_sets
  pub delete_empty_dir :
      changed "delete-emptydir-data" ≡ true → o'.delete_empty_dir ≡ o.delete_empty_dir
  pub force_delete_standalone :
      changed "force-delete-standalone" ≡ true
      → o'.force_delete_standalone ≡ o.force_delete_standalone
  pub uncordon_on_failure :
      changed "uncordon-on-failure" ≡ true → o'.uncordon_on_failure ≡ o.uncordon_on_failure
  pub emit_events : changed "emit-events" ≡ true → o'.emit_events ≡ o.emit_events
  pub more_patterns : List String
  pub stateful_name_patterns : o'.stateful_name_patterns ≡ o.stateful_name_patterns ++ more_patterns
  pub grace_period : o'.grace_period ≡ o.grace_period
  pub node_selector : o'.node_selector ≡ o.node_selector
  pub skip_workloads : o'.skip_workloads ≡ o.skip_workloads
  pub only_workloads : o'.only_workloads ≡ o.only_workloads
  pub profile : o'.profile ≡ o.profile
  pub config_file : o'.config_file ≡ o.config_file
  pub mode : o'.mode ≡ o.mode
  pub resume : o'.resume ≡ o.resume
  pub checkpoint_path : o'.checkpoint_path ≡ o.checkpoint_path

if-given :
    {A : Type 0} {given : Bool} {x start : A} (last : A)
    → x ≡ (if given then start else last)
    → given ≡ true
    → x ≡ start
if-given last e h = ground arith

IsLayered-KeepsFlags :
    {changed : FlagChanged} {layers : List Profile} {o o' : AppOptions}
    → IsLayered changed layers o o'
    → KeepsFlags changed o o'
IsLayered-KeepsFlags {changed} {layers} l = record {
  timeout = if-given _ l.timeout;
  rollout_timeout = if-given _ l.rollout_timeout;
  pod_vacate_timeout = if-given _ l.pod_vacate_timeout;
  eviction_timeout = if-given _ l.eviction_timeout;
  pdb_retry_interval = if-given _ l.pdb_retry_interval;
  poll_interval = if-given _ l.poll_interval;
  max_concurrency = if-given _ l.max_concurrency;
  node_concurrency = if-given _ l.node_concurrency;
  preflight = if-given _ l.preflight;
  log_format = if-given _ l.log_format;
  dry_run = if-given _ l.dry_run;
  force = if-given _ l.force;
  skip_daemon_sets = if-given _ l.skip_daemon_sets;
  delete_empty_dir = if-given _ l.delete_empty_dir;
  force_delete_standalone = if-given _ l.force_delete_standalone;
  uncordon_on_failure = if-given _ l.uncordon_on_failure;
  emit_events = if-given _ l.emit_events;
  more_patterns = all_patterns layers;
  stateful_name_patterns = l.stateful_name_patterns;
  grace_period = l.grace_period;
  node_selector = l.node_selector;
  skip_workloads = l.skip_workloads;
  only_workloads = l.only_workloads;
  profile = l.profile;
  config_file = l.config_file;
  mode = l.mode;
  resume = l.resume;
  checkpoint_path = l.checkpoint_path;
}

-- The flags without the hidden --skip-daemon-sets.
abbrev pub without_alias : FlagChanged → FlagChanged
without_alias changed flag = if flag == "skip-daemon-sets" then false else changed flag

keeps_flags :
    (m : Machine) (o : AppOptions) (changed : Option FlagChanged)
    → KeepsFlags (or_unchanged changed) o (apply_config m o changed).1
unfolding apply_config
keeps_flags m o changed =
    let a = apply_config-Applies (or_unchanged changed) m o in
    subst (KeepsFlags (or_unchanged changed) o) (sym a.result)
      (IsLayered-KeepsFlags (apply_layers-IsLayered (or_unchanged changed) a.layers o))

alias_ignored :
    (m : Machine) (o : AppOptions) (changed : Option FlagChanged)
    → apply_config m o changed ≡ apply_config m o (some (without_alias (or_unchanged changed)))
unfolding apply_config or_unchanged config_flags drain_option_specs
alias_ignored m o changed =
    apply_config-same m o (or_unchanged changed) (without_alias (or_unchanged changed)) (
      refl,
      (
        refl,
        (
          refl,
          (
            refl,
            (
              refl,
              (
                refl,
                (
                  refl,
                  (
                    refl,
                    (
                      refl,
                      (refl, (refl, (refl, (refl, (refl, (refl, (refl, (refl, (refl, tt))))))))),
                    ),
                  ),
                ),
              ),
            ),
          ),
        ),
      ),
    )

-- Whatever `apply_config` returns, an error too, it changes no option whose own flag was set on the
-- command line, only appends to the name patterns, and leaves the options that no profile has. The
-- own flag of skip_daemon_sets is --ignore-daemonsets and not its hidden alias --skip-daemon-sets:
-- whether the alias was set makes no difference to what `apply_config` does.
pub apply_config-KeepsFlags :
    (m : Machine) (o : AppOptions) (changed : Option FlagChanged)
    → KeepsFlags (or_unchanged changed) o (apply_config m o changed).1
      × (apply_config m o changed ≡ apply_config m o (some (without_alias (or_unchanged changed))))
apply_config-KeepsFlags m o changed = (keeps_flags m o changed, alias_ignored m o changed)
