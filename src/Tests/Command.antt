-- ===== src/Tests/Command.antt =====
-- The whole command, at two nodes without pods.
use k8s_safed.Cluster.Errors.{is_transient}
use k8s_safed.Drain.Eviction.Filter.{
  blocked_eviction_pods, exclude_protected_pods, filter_evictable, pods_pending_deletion,
}
use k8s_safed.Drain.Eviction.Remaining.{evict_remaining}
use k8s_safed.Config.{join_home}
use k8s_safed.Drain.Phases.{finish_successful_drain}
use k8s_safed.Cluster.Requests.{remove_file}
use k8s_safed.Drain.Checkpoint.Store.{delete_checkpoint}
use k8s_safed.Cluster.Exec.{ignore}
use k8s_safed.Drain.Checkpoint.Path.{sanitize_filename}
use k8s_safed.Base.Text.{slash2}
use k8s_safed.Drain.WorkloadFilter.{filter_workloads}
use k8s_safed.Drain.Runner.{run_workloads}
use k8s_safed.Drain.Events.{node_event}
use k8s_safed.Drain.Node.{cordon}
use k8s_safed.App.{drainer_options, preflight_mode, slice_to_set}
use k8s_safed.Workload.Finder.{find_for_node}
use k8s_safed.Cluster.Exec.{ask}
use k8s_safed.Drain.Rollout.Retry.{retry_transient, attempt_once}
use k8s_safed.Drain.Phases.{
  validate_node, discover_workloads, prepare_before_cordon, check_checkpoint, begin_cordoned_drain,
  drain_cordoned,
}
use k8s_safed.Drain.Phases.{run}
use k8s_safed.App.Resolved.{drain_sequential, drain_node, node_checkpoint}
use k8s_safed.App.Whole.{effective_kube_context}
use k8s_safed.App.Nodes.{resolve_node_names}
use k8s_safed.Cluster.Exec.{in_context}
use k8s_safed.App.{is_log_format, check_durations}
use k8s_safed.App.Layers.{override, text_value, or_unchanged}
use k8s_safed.App.{is_preflight_mode}
use k8s_safed.App.Whole.{run_configured}
use k8s_safed.App.Layers.{apply_profile_values}
use k8s_safed.App.Configure.{apply_mode, apply_defaults, apply_profile}
use k8s_safed.Config.{
  unmarshal_duration, as_string, parsed_duration, unmarshal_preflight, mode_of_bool, as_bool,
}
use k8s_safed.Base.Maps.{lookup}
use k8s_safed.Config.Read.{decode_pointer, decode_mode, decode_profiles}
use k8s_safed.Config.Read.{load, decode_config, decode_profile}
use k8s_safed.Config.{default_config_path}
use k8s_safed.App.Configure.{
  apply_loaded, load_config, config_path, explicit_config, loaded_or_none,
}
use k8s_safed.Cluster.Exec.{◌>>=◌, lift}
use k8s_safed.Commands.{run_drain}
use k8s_safed.Base.{◌≡◌, refl, String, Bool, true, none, some, List, [], ◌∷◌, ◌==◌}
use k8s_safed.Base.Text.{append_text}
use k8s_safed.Cluster.Calls.{caller}
use k8s_safed.Cluster.Env.{Env, Result, ok, err, message, wrap}
use k8s_safed.Cluster.Exec.{World}
use k8s_safed.Drain.DryRun.{IsUntouched}
use k8s_safed.Drain.Checkpoint.Path.{file_name, checkpoint_path}
use k8s_safed.Drain.Checkpoint.Path.Names.{
  IsSafeName, file_name-IsSafeName, checkpoint_path_collides,
}
use k8s_safed.App.{AppOptions, validate_options, validate_targets}
use k8s_safed.App.Configure.{apply_config}
use k8s_safed.App.Resolved.{run_resolved, node_batch_size}
use k8s_safed.App.Resolved.Patches.{OnlyPatched, run_resolved-OnlyPatched}
use k8s_safed.App.Resolved.Stops.{StoppedAt, run_resolved-StoppedAt}
use k8s_safed.App.Whole.{KubeFlags, run_targets, run_app}
use k8s_safed.App.Whole.Untouched.{run_app_dry}
use k8s_safed.App.Whole.Refused.{IsRefused, run_app_refused}
use k8s_safed.App.Valid.{IsValidDrain}
use k8s_safed.App.{drainer_options}
use k8s_safed.Base.{◌⊎◌}
use k8s_safed.App.Configure.{apply_config}
use k8s_safed.Commands.{
  DrainOptions, flag_defaults, to_app_options, apply_app_options, drain_command,
}
use k8s_safed.Commands.Completed.{IsWellCalled, IsCompleted, drain_command_done}
use k8s_safed.Tests.Cluster.{env, poller, start}
use k8s_safed.Tests.Validation.{app_options}
use k8s_safed.Tests.Configuration.{machine, with_timeout_flag}

abbrev quiet : Env
quiet = record env { pods_of = λ h ctx ns sel fields. ok [] }

abbrev flags : KubeFlags
flags = record { context = none; client = ok tt; current_context = ok "prod" }

abbrev both : List String
both = "n1" ∷ "n2" ∷ []

abbrev dry_flag : String → Bool
dry_flag flag = flag == "dry-run"

run_app_dry_example :
    IsUntouched start
      (run_app env poller machine flags caller both
        (record app_options { dry_run = true })
        (some dry_flag)
        start).1
run_app_dry_example =
    run_app_dry env poller machine flags caller both (record app_options { dry_run = true })
      dry_flag start refl refl

run_resolved-OnlyPatched_example :
    OnlyPatched both []
      (run_resolved env poller (ok "/home/ops") "prod" app_options both caller start).1
run_resolved-OnlyPatched_example =
    run_resolved-OnlyPatched env poller (ok "/home/ops") "prod" app_options both caller start

file_name-IsSafeName_example : IsSafeName (file_name "arn:aws/prod" "n1")
file_name-IsSafeName_example = file_name-IsSafeName "arn:aws/prod" "n1"

checkpoint_path_collides_example :
    checkpoint_path (ok "/root") (append_text "a" (append_text "-" "b")) "c"
    ≡ checkpoint_path (ok "/root") "a" (append_text "b" (append_text "-" "c"))
checkpoint_path_collides_example = checkpoint_path_collides (ok "/root") "a" "b" "c"

abbrev completed : Result DrainOptions × World
completed =
    drain_command quiet poller machine flags caller both flag_defaults with_timeout_flag start

abbrev completed_options : DrainOptions
completed_options = record flag_defaults {
  preflight = "off";
  stateful_name_patterns = "ledger" ∷ [];
}

drain_command_done_example :
    IsWellCalled both flag_defaults
    × IsCompleted quiet poller machine flags caller both flag_defaults with_timeout_flag
        completed_options
unfolding drain_command flag_defaults run_drain ◌>>=◌ run_app lift apply_config apply_loaded
    load_config config_path explicit_config to_app_options default_config_path loaded_or_none load
    decode_config decode_profile decode_pointer lookup unmarshal_duration as_string parsed_duration
    decode_mode unmarshal_preflight mode_of_bool as_bool decode_profiles apply_mode apply_defaults
    apply_profile_values apply_profile run_configured validate_options is_preflight_mode override
    text_value or_unchanged is_log_format check_durations in_context resolve_node_names run_targets
    validate_targets effective_kube_context run_resolved node_batch_size drain_sequential drain_node
    node_checkpoint checkpoint_path run validate_node retry_transient attempt_once ask
    discover_workloads find_for_node prepare_before_cordon drainer_options preflight_mode
    check_checkpoint begin_cordoned_drain cordon node_event drain_cordoned run_workloads
    filter_workloads slice_to_set join_home slash2 append_text file_name sanitize_filename ignore
    delete_checkpoint remove_file finish_successful_drain apply_app_options evict_remaining
    blocked_eviction_pods exclude_protected_pods filter_evictable pods_pending_deletion
drain_command_done_example =
    drain_command_done quiet poller machine flags caller both flag_defaults completed_options
      with_timeout_flag start completed.1 refl

abbrev gone : Env
gone = record quiet { node_of = λ h ctx name. err (message "gone") }

abbrev stopped : Result (Unit {0}) × World
stopped = run_resolved gone poller (ok "/home/ops") "prod" app_options both caller start

run_resolved-StoppedAt_example :
    StoppedAt gone poller
      (ok "/home/ops")
      "prod"
      app_options
      both
      caller
      both
      (wrap "node not found" (message "gone"))
      stopped.1
unfolding node_batch_size run_resolved drain_sequential ◌>>=◌ drain_node lift node_checkpoint
    checkpoint_path run validate_node in_context retry_transient attempt_once ask is_transient
run_resolved-StoppedAt_example =
    run_resolved-StoppedAt gone poller (ok "/home/ops") "prod" app_options both caller
      (wrap "node not found" (message "gone")) start stopped.1 refl refl

abbrev misspelt : AppOptions
misspelt = record app_options { preflight = "strct" }

run_app_refused_example :
    IsRefused env poller machine flags caller both misspelt (some (λ flag. true)) start
    ⊎ (((apply_config machine misspelt (some (λ flag. true))).0 ≡ ok tt)
        × IsValidDrain (apply_config machine misspelt (some (λ flag. true))).1 (
            drainer_options
              (apply_config machine misspelt (some (λ flag. true))).1
              both
              "prod"
              "n1"
              ""))
run_app_refused_example =
    run_app_refused env poller machine flags caller both misspelt (some (λ flag. true)) start both
      "prod" "n1" ""
