-- ===== src/App/Layers/Order.antt =====
-- Layers of defaults in an order: the flag wins, then the last layer that sets a value.
use k8s_safed.Base.{
  ◌≡◌, refl, sym, ◌∙◌, String, Bool, true, false, Option, none, some, List, [], ◌∷◌, ◌++◌, arith,
  if◌then◌else◌,
}
use mathlib.Core.List.{append-nil, append_assoc}
use k8s_safed.Config.{Profile}
use k8s_safed.App.{AppOptions}
use k8s_safed.App.Layers.{FlagChanged, override, text_value, apply_profile_values}

-- The value of an option after layers of profiles: the flag's where it was given, else that of the
-- last layer that has one, else the one before.
abbrev pub last_set : {A : Type 0} → (Profile → Option A) → List Profile → A → A
last_set field [] start = start
last_set field (p ∷ ps) start = last_set field ps (elim (field p) [ none ↦ start | some v ↦ v ])

abbrev pub chosen : {A : Type 0} → Bool → (Profile → Option A) → List Profile → A → A
chosen given field layers start = if given then start else last_set field layers start

abbrev pub all_patterns : List Profile → List String
all_patterns [] = []
all_patterns (p ∷ ps) = p.stateful_name_patterns ++ all_patterns ps

-- The options `o'` are `o` with the layers over them.
pub record IsLayered (changed : FlagChanged) (layers : List Profile) (o o' : AppOptions)
    : Type 0 where
  pub timeout : o'.timeout ≡ chosen (changed "timeout") (λ p. p.timeout) layers o.timeout
  pub rollout_timeout :
      o'.rollout_timeout
      ≡ chosen (changed "rollout-timeout") (λ p. p.rollout_timeout) layers o.rollout_timeout
  pub pod_vacate_timeout :
      o'.pod_vacate_timeout
      ≡ chosen
          (changed "pod-vacate-timeout")
          (λ p. p.pod_vacate_timeout)
          layers
          o.pod_vacate_timeout
  pub eviction_timeout :
      o'.eviction_timeout
      ≡ chosen (changed "eviction-timeout") (λ p. p.eviction_timeout) layers o.eviction_timeout
  pub pdb_retry_interval :
      o'.pdb_retry_interval
      ≡ chosen
          (changed "pdb-retry-interval")
          (λ p. p.pdb_retry_interval)
          layers
          o.pdb_retry_interval
  pub poll_interval :
      o'.poll_interval
      ≡ chosen (changed "poll-interval") (λ p. p.poll_interval) layers o.poll_interval
  pub max_concurrency :
      o'.max_concurrency
      ≡ chosen (changed "max-concurrency") (λ p. p.max_concurrency) layers o.max_concurrency
  pub node_concurrency :
      o'.node_concurrency
      ≡ chosen (changed "node-concurrency") (λ p. p.node_concurrency) layers o.node_concurrency
  pub preflight :
      o'.preflight ≡ chosen (changed "preflight") (λ p. text_value p.preflight) layers o.preflight
  pub log_format :
      o'.log_format
      ≡ chosen (changed "log-format") (λ p. text_value p.log_format) layers o.log_format
  pub dry_run : o'.dry_run ≡ chosen (changed "dry-run") (λ p. p.dry_run) layers o.dry_run
  pub force : o'.force ≡ chosen (changed "force") (λ p. p.force) layers o.force
  pub skip_daemon_sets :
      o'.skip_daemon_sets
      ≡ chosen (changed "ignore-daemonsets") (λ p. p.ignore_daemon_sets) layers o.skip_daemon_sets
  pub delete_empty_dir :
      o'.delete_empty_dir
      ≡ chosen (changed "delete-emptydir-data") (λ p. p.delete_empty_dir) layers o.delete_empty_dir
  pub force_delete_standalone :
      o'.force_delete_standalone
      ≡ chosen
          (changed "force-delete-standalone")
          (λ p. p.force_delete_standalone)
          layers
          o.force_delete_standalone
  pub uncordon_on_failure :
      o'.uncordon_on_failure
      ≡ chosen
          (changed "uncordon-on-failure")
          (λ p. p.uncordon_on_failure)
          layers
          o.uncordon_on_failure
  pub emit_events :
      o'.emit_events ≡ chosen (changed "emit-events") (λ p. p.emit_events) layers o.emit_events
  pub stateful_name_patterns :
      o'.stateful_name_patterns ≡ o.stateful_name_patterns ++ all_patterns layers
  pub grace_period : o'.grace_period ≡ o.grace_period
  pub node_selector : o'.node_selector ≡ o.node_selector
  pub skip_workloads : o'.skip_workloads ≡ o.skip_workloads
  pub only_workloads : o'.only_workloads ≡ o.only_workloads
  pub profile : o'.profile ≡ o.profile
  pub config_file : o'.config_file ≡ o.config_file
  pub mode : o'.mode ≡ o.mode
  pub resume : o'.resume ≡ o.resume
  pub checkpoint_path : o'.checkpoint_path ≡ o.checkpoint_path

chosen-override :
    {A : Type 0} (changed : FlagChanged) (flag : String) (field : Profile → Option A) (p : Profile)
    (ps : List Profile) (start : A)
    → chosen (changed flag) field ps (override changed flag (field p) start)
      ≡ chosen (changed flag) field (p ∷ ps) start
unfolding override
chosen-override changed flag field p ps start = ground arith

unfoldable pub apply_layers : FlagChanged → List Profile → AppOptions → AppOptions
apply_layers changed [] o = o
apply_layers changed (p ∷ ps) o = apply_layers changed ps (apply_profile_values o changed p)

pub apply_layers-IsLayered :
    (changed : FlagChanged) (layers : List Profile) (o : AppOptions)
    → IsLayered changed layers o (apply_layers changed layers o)
unfolding apply_layers apply_profile_values
apply_layers-IsLayered changed [] o = record {
  timeout = same (changed "timeout") o.timeout;
  rollout_timeout = same (changed "rollout-timeout") o.rollout_timeout;
  pod_vacate_timeout = same (changed "pod-vacate-timeout") o.pod_vacate_timeout;
  eviction_timeout = same (changed "eviction-timeout") o.eviction_timeout;
  pdb_retry_interval = same (changed "pdb-retry-interval") o.pdb_retry_interval;
  poll_interval = same (changed "poll-interval") o.poll_interval;
  max_concurrency = same (changed "max-concurrency") o.max_concurrency;
  node_concurrency = same (changed "node-concurrency") o.node_concurrency;
  preflight = same (changed "preflight") o.preflight;
  log_format = same (changed "log-format") o.log_format;
  dry_run = same (changed "dry-run") o.dry_run;
  force = same (changed "force") o.force;
  skip_daemon_sets = same (changed "ignore-daemonsets") o.skip_daemon_sets;
  delete_empty_dir = same (changed "delete-emptydir-data") o.delete_empty_dir;
  force_delete_standalone = same (changed "force-delete-standalone") o.force_delete_standalone;
  uncordon_on_failure = same (changed "uncordon-on-failure") o.uncordon_on_failure;
  emit_events = same (changed "emit-events") o.emit_events;
  stateful_name_patterns = sym (append-nil _);
  grace_period = refl;
  node_selector = refl;
  skip_workloads = refl;
  only_workloads = refl;
  profile = refl;
  config_file = refl;
  mode = refl;
  resume = refl;
  checkpoint_path = refl;
}
  where
    same : {A : Type 0} (b : Bool) (v : A) → v ≡ (if b then v else v)
    same true v = refl
    same false v = refl
apply_layers-IsLayered changed (p ∷ ps) o =
    let later = apply_layers-IsLayered changed ps (apply_profile_values o changed p) in
    record {
      timeout = later.timeout ∙ chosen-override changed "timeout" (λ q. q.timeout) p ps o.timeout;
      rollout_timeout =
          later.rollout_timeout
          ∙ chosen-override changed "rollout-timeout" (λ q. q.rollout_timeout) p ps
              o.rollout_timeout;
      pod_vacate_timeout =
          later.pod_vacate_timeout
          ∙ chosen-override changed "pod-vacate-timeout" (λ q. q.pod_vacate_timeout) p ps
              o.pod_vacate_timeout;
      eviction_timeout =
          later.eviction_timeout
          ∙ chosen-override changed "eviction-timeout" (λ q. q.eviction_timeout) p ps
              o.eviction_timeout;
      pdb_retry_interval =
          later.pdb_retry_interval
          ∙ chosen-override changed "pdb-retry-interval" (λ q. q.pdb_retry_interval) p ps
              o.pdb_retry_interval;
      poll_interval =
          later.poll_interval
          ∙ chosen-override changed "poll-interval" (λ q. q.poll_interval) p ps o.poll_interval;
      max_concurrency =
          later.max_concurrency
          ∙ chosen-override changed "max-concurrency" (λ q. q.max_concurrency) p ps
              o.max_concurrency;
      node_concurrency =
          later.node_concurrency
          ∙ chosen-override changed "node-concurrency" (λ q. q.node_concurrency) p ps
              o.node_concurrency;
      preflight =
          later.preflight
          ∙ chosen-override changed "preflight" (λ q. text_value q.preflight) p ps o.preflight;
      log_format =
          later.log_format
          ∙ chosen-override changed "log-format" (λ q. text_value q.log_format) p ps o.log_format;
      dry_run = later.dry_run ∙ chosen-override changed "dry-run" (λ q. q.dry_run) p ps o.dry_run;
      force = later.force ∙ chosen-override changed "force" (λ q. q.force) p ps o.force;
      skip_daemon_sets =
          later.skip_daemon_sets
          ∙ chosen-override changed "ignore-daemonsets" (λ q. q.ignore_daemon_sets) p ps
              o.skip_daemon_sets;
      delete_empty_dir =
          later.delete_empty_dir
          ∙ chosen-override changed "delete-emptydir-data" (λ q. q.delete_empty_dir) p ps
              o.delete_empty_dir;
      force_delete_standalone =
          later.force_delete_standalone
          ∙ chosen-override changed "force-delete-standalone" (λ q. q.force_delete_standalone) p ps
              o.force_delete_standalone;
      uncordon_on_failure =
          later.uncordon_on_failure
          ∙ chosen-override changed "uncordon-on-failure" (λ q. q.uncordon_on_failure) p ps
              o.uncordon_on_failure;
      emit_events =
          later.emit_events
          ∙ chosen-override changed "emit-events" (λ q. q.emit_events) p ps o.emit_events;
      stateful_name_patterns =
          later.stateful_name_patterns
          ∙ append_assoc o.stateful_name_patterns p.stateful_name_patterns (all_patterns ps);
      grace_period = later.grace_period;
      node_selector = later.node_selector;
      skip_workloads = later.skip_workloads;
      only_workloads = later.only_workloads;
      profile = later.profile;
      config_file = later.config_file;
      mode = later.mode;
      resume = later.resume;
      checkpoint_path = later.checkpoint_path;
    }
