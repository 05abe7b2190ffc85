-- ===== src/App/Layers.antt =====
-- `ApplyProfileValues` and the built-in modes of internal/drainapp/app.go: a layer of defaults.
pub mod Order
pub mod Modes
use k8s_safed.Base.{
  ℕ, String, Bool, true, false, Option, none, some, List, [], ◌∷◌, ◌++◌, ◌*◌, ◌==◌, if◌then◌else◌,
}
use k8s_safed.Base.Int.{pos}
use k8s_safed.Base.Maps.{Map}
use k8s_safed.Cluster.Objects.{Duration}
use k8s_safed.Config.{Profile}
use k8s_safed.Drain.Options.{seconds}
use k8s_safed.App.{AppOptions}

-- Whether a flag was set on the command line.
abbrev pub FlagChanged : Type 0
FlagChanged = String → Bool

-- `if changed == nil { … }`
unfoldable pub or_unchanged : Option FlagChanged → FlagChanged
or_unchanged none = λ name. false
or_unchanged (some changed) = changed

module _ (changed : FlagChanged) (flag : String) where
  -- `if value != nil && !changed(flag) { old = *value }`
  unfoldable pub override : {A : Type 0} → Option A → A → A
  override none old = old
  override (some new) old = if changed flag then old else new

-- A text of a profile, of which the empty one is as nil.
unfoldable pub text_value : String → Option String
text_value s = if s == "" then none else some s

unfoldable pub apply_profile_values : AppOptions → FlagChanged → Profile → AppOptions
apply_profile_values opts changed prof = record opts {
  timeout = override changed "timeout" prof.timeout opts.timeout;
  rollout_timeout = override changed "rollout-timeout" prof.rollout_timeout opts.rollout_timeout;
  pod_vacate_timeout =
      override changed "pod-vacate-timeout" prof.pod_vacate_timeout opts.pod_vacate_timeout;
  eviction_timeout =
      override changed "eviction-timeout" prof.eviction_timeout opts.eviction_timeout;
  pdb_retry_interval =
      override changed "pdb-retry-interval" prof.pdb_retry_interval opts.pdb_retry_interval;
  poll_interval = override changed "poll-interval" prof.poll_interval opts.poll_interval;
  max_concurrency = override changed "max-concurrency" prof.max_concurrency opts.max_concurrency;
  node_concurrency =
      override changed "node-concurrency" prof.node_concurrency opts.node_concurrency;
  preflight = override changed "preflight" (text_value prof.preflight) opts.preflight;
  log_format = override changed "log-format" (text_value prof.log_format) opts.log_format;
  dry_run = override changed "dry-run" prof.dry_run opts.dry_run;
  force = override changed "force" prof.force opts.force;
  skip_daemon_sets =
      override changed "ignore-daemonsets" prof.ignore_daemon_sets opts.skip_daemon_sets;
  delete_empty_dir =
      override changed "delete-emptydir-data" prof.delete_empty_dir opts.delete_empty_dir;
  force_delete_standalone =
      override changed "force-delete-standalone" prof.force_delete_standalone
        opts.force_delete_standalone;
  uncordon_on_failure =
      override changed "uncordon-on-failure" prof.uncordon_on_failure opts.uncordon_on_failure;
  emit_events = override changed "emit-events" prof.emit_events opts.emit_events;
  stateful_name_patterns = opts.stateful_name_patterns ++ prof.stateful_name_patterns;
}

abbrev pub empty_profile : Profile
empty_profile = record {
  timeout = none;
  rollout_timeout = none;
  pod_vacate_timeout = none;
  eviction_timeout = none;
  pdb_retry_interval = none;
  poll_interval = none;
  max_concurrency = none;
  node_concurrency = none;
  preflight = "";
  log_format = "";
  dry_run = none;
  force = none;
  ignore_daemon_sets = none;
  delete_empty_dir = none;
  force_delete_standalone = none;
  uncordon_on_failure = none;
  emit_events = none;
  stateful_name_patterns = [];
}

abbrev minutes : ℕ → Duration
minutes n = seconds (60 * n)

unfoldable pub built_in_drain_modes : Map Profile
built_in_drain_modes =
    (
      "prod",
      record empty_profile {
        preflight = "strict";
        timeout = some (minutes 45);
        max_concurrency = some (pos 1);
        node_concurrency = some (pos 1);
        uncordon_on_failure = some true;
        emit_events = some true;
      },
    )
    ∷ (
      "scale-down",
      record empty_profile {
        preflight = "warn";
        rollout_timeout = some (minutes 6);
        pod_vacate_timeout = some (minutes 2);
        eviction_timeout = some (minutes 2);
        max_concurrency = some (pos 2);
        node_concurrency = some (pos 5);
        uncordon_on_failure = some true;
      },
    )
    ∷ (
      "debug",
      record empty_profile {
        preflight = "warn";
        dry_run = some true;
        poll_interval = some (seconds 1);
        timeout = some (minutes 10);
      },
    )
    ∷ []
