-- ===== src/Tests/Validation.antt =====
-- The validation of the command's options and the resolution of node names, at one example.
use k8s_safed.Cluster.Exec.{try_catch, ask, pure}
use k8s_safed.App.Nodes.{list_once, names_of, sort_names}
use k8s_safed.Base.{refl, true, false, [], ◌∷◌}
use k8s_safed.Base.Int.{pos, negsuc}
use k8s_safed.Cluster.Calls.{caller}
use k8s_safed.Cluster.Exec.{World}
use k8s_safed.App.Nodes.{resolve_node_names}
use k8s_safed.App.Nodes.Listed.{IsListed, resolve_node_names-IsListed}
use k8s_safed.Tests.Cluster.{env, start}
use k8s_safed.App.{
  AppOptions, drainer_options, validate_options, is_preflight_mode, is_log_format, check_durations,
}
use k8s_safed.App.Valid.{IsValidDrain, drainer_options-IsValidDrain}

abbrev pub app_options : AppOptions
app_options = record {
  dry_run = false;
  timeout = pos 0;
  skip_daemon_sets = true;
  delete_empty_dir = false;
  grace_period = negsuc 0;
  rollout_timeout = pos 300;
  pod_vacate_timeout = pos 120;
  eviction_timeout = pos 300;
  pdb_retry_interval = pos 5;
  poll_interval = pos 5;
  force = false;
  force_delete_standalone = true;
  max_concurrency = pos 1;
  log_format = "plain";
  uncordon_on_failure = true;
  node_selector = "";
  node_concurrency = pos 1;
  preflight = "strict";
  skip_workloads = "Deployment/shop/web" ∷ [];
  only_workloads = [];
  profile = "";
  config_file = "";
  mode = "";
  stateful_name_patterns = [];
  emit_events = false;
  resume = false;
  checkpoint_path = "";
}

drainer_options-IsValidDrain_example :
    IsValidDrain app_options (drainer_options app_options ("n1" ∷ []) "prod" "n1" "cp")
unfolding validate_options is_preflight_mode is_log_format check_durations
drainer_options-IsValidDrain_example =
    drainer_options-IsValidDrain app_options ("n1" ∷ []) "prod" "n1" "cp" refl

abbrev listed_end : World
listed_end = (resolve_node_names env caller "pool=a" [] start).1

resolve_node_names-IsListed_example : IsListed env caller "pool=a" [] ("n1" ∷ []) listed_end
unfolding resolve_node_names list_once try_catch ask names_of pure sort_names
resolve_node_names-IsListed_example =
    resolve_node_names-IsListed env caller "pool=a" [] start listed_end refl refl
