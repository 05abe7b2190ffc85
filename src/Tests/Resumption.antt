-- ===== src/Tests/Resumption.antt =====
-- The theorems on checkpoints, the runner and the preflight, at the small cluster.
use k8s_safed.Drain.Runner.{run_batch, restart_and_save, save_progress}
use k8s_safed.Drain.Rollout.Restart.{
  rolling_restart, coordinate, trigger_restart, restart_and_wait, restart_deployment,
}
use k8s_safed.Drain.Events.{workload_event, events_enabled}
use k8s_safed.Cluster.Exec.{gets, in_context, ignore, lift}
use k8s_safed.Drain.Rollout.DeploymentWait.{
  wait_for_deployment_rollout, check_deployment, observe_deployment, deadline_exceeded,
  check_deployment_pods, deployment_complete, refresh_selector, stuck_pod,
}
use k8s_safed.Base.Maps.{get_text}
use k8s_safed.Base.Text.{append_text}
use k8s_safed.Cluster.Requests.{make_dir_of, rename_file, write_file}
use k8s_safed.Drain.Checkpoint.Store.{save}
use k8s_safed.Drain.Rollout.BadPods.{find_bad_pod_state}
use k8s_safed.Drain.Rollout.Selectors.{build_label_selector_string}
use k8s_safed.Drain.Rollout.Vacate.{
  check_vacated, live_count, wait_for_pods_off_node, workload_pod_count_on_node,
}
use k8s_safed.Drain.Preflight.Patterns.{matches_stateful_pattern}
use k8s_safed.Drain.Preflight.Budgets.{budget_issues, unique_namespaces, blocking_issues}
use k8s_safed.Drain.Preflight.{inspect_all, inspect, judge, deployment_issues}
use k8s_safed.Cluster.Exec.{◌>>=◌, try_catch, ask}
use k8s_safed.Drain.Checkpoint.{checkpoint_work}
use k8s_safed.Cluster.Exec.{pure}
use k8s_safed.Base.Text.{slash3}
use k8s_safed.Base.Maps.{lookup, insert}
use k8s_safed.Base.{◌≡◌, refl, true, false, [], ◌∷◌, All, arith, ◌==◌}
use k8s_safed.Cluster.Calls.{caller}
use k8s_safed.Base.Int.{pos}
use k8s_safed.Cluster.Objects.{Deployment}
use k8s_safed.Base.{some}
use k8s_safed.Cluster.Env.{Env, ok}
use k8s_safed.Cluster.Exec.{World}
use k8s_safed.Drain.Options.{Options, strict}
use k8s_safed.Workload.{Workload, workload_key}
use k8s_safed.Drain.Checkpoint.{Checkpoint, new_checkpoint, is_done, work_of, mark_done_at}
use k8s_safed.Drain.Checkpoint.Resume.{checkpoint_can_skip}
use k8s_safed.Drain.Checkpoint.Resume.Skips.{mark_done_at_skips}
use k8s_safed.Drain.Runner.{run_sequential, run_batches}
use k8s_safed.Drain.Runner.Progress.{Continues, run_batches_done}
use k8s_safed.Drain.Preflight.{run_preflight}
use k8s_safed.Drain.Preflight.Strict.{IsInspected, run_preflight_strict}
use k8s_safed.Tests.Cluster.{env, poller, options, start, web, web_deployment}

abbrev progress : Checkpoint
progress = mark_done_at new_checkpoint web 5

mark_done_at_skips_example :
    (checkpoint_can_skip env options caller progress web start ≡ (ok true, start))
    × ((v : Workload)
        → workload_key web == workload_key v ≡ false
        → (is_done progress v ≡ is_done new_checkpoint v)
          × (work_of progress v ≡ work_of new_checkpoint v))
mark_done_at_skips_example = mark_done_at_skips env options caller new_checkpoint web 5 start

abbrev pub emptied : Env
emptied = record env { pods_of = λ h ctx ns sel fields. ok [] }

abbrev pub recorded : Options
recorded = record options { checkpoint_path = "cp" }

abbrev pub done_once : Checkpoint
done_once = mark_done_at (record new_checkpoint { node_name = "n1" }) web 5

abbrev batches_end : World
batches_end = (run_batches emptied poller recorded 1 caller 2 new_checkpoint (web ∷ []) start).1

run_batches_done_example :
    All (λ v. is_done done_once v ≡ true) (web ∷ []) × Continues new_checkpoint done_once
unfolding run_sequential run_batches run_batch ◌>>=◌ try_catch restart_and_save rolling_restart
    coordinate trigger_restart workload_event pure restart_and_wait restart_deployment gets
    in_context ask wait_for_deployment_rollout check_deployment observe_deployment deadline_exceeded
    get_text insert lookup append_text slash3 ignore lift make_dir_of rename_file write_file save
    checkpoint_work mark_done_at events_enabled check_deployment_pods deployment_complete
    refresh_selector stuck_pod find_bad_pod_state build_label_selector_string check_vacated
    live_count wait_for_pods_off_node workload_pod_count_on_node save_progress workload_key
run_batches_done_example =
    run_batches_done emptied poller recorded 1 1 caller new_checkpoint (web ∷ []) start batches_end
      refl refl (omega arith) refl

abbrev two_replicas : Deployment
two_replicas = record web_deployment { replicas = some (pos 2) }

abbrev replicated : Env
replicated = record env { deployment_of = λ h ctx ns name. ok two_replicas }

abbrev careful : Options
careful = record options { preflight = strict }

run_preflight_strict_example : All (λ v. IsInspected replicated caller v.kind v) (web ∷ [])
unfolding run_preflight ◌>>=◌ inspect_all inspect try_catch ask pure budget_issues unique_namespaces
    judge deployment_issues matches_stateful_pattern blocking_issues
run_preflight_strict_example =
    run_preflight_strict replicated careful caller (web ∷ []) start
      (run_preflight replicated careful caller (web ∷ []) start).1 refl refl
