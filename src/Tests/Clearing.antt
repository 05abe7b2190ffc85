-- ===== src/Tests/Clearing.antt =====
-- The theorems on what has been seen when a restart and a drain end without an error.
use k8s_safed.Drain.Runner.Resumed.{remaining_workloads}
use k8s_safed.Drain.Runner.Order.{insert_by_priority}
use k8s_safed.Drain.Rollout.Vacate.{workload_has_pods_on_node}
use k8s_safed.Drain.Checkpoint.{checkpoint_work, is_done, mark_done_at, work_of}
use k8s_safed.Drain.Checkpoint.Store.{decode, encode, load_checkpoint, save}
use k8s_safed.Drain.Checkpoint.Resume.{
  checkpoint_can_skip, same_identity, skip_by_identity, validate_checkpoint,
}
use k8s_safed.Cluster.Requests.{make_dir_of, read_file, rename_file, write_file}
use k8s_safed.Base.Maps.{delete, get_flag}
use k8s_safed.Drain.Eviction.Remaining.{evict_remaining}
use k8s_safed.Drain.Runner.{
  save_progress, batch_size, run_batch, run_batches, run_remaining, run_resumed,
}
use k8s_safed.Drain.Runner.Order.{sort_by_priority}
use k8s_safed.Drain.Runner.{run_sorted, run_all, run_sequential, restart_and_save}
use k8s_safed.Workload.{workload_key}
use k8s_safed.Drain.Rollout.Vacate.{
  check_vacated, live_count, wait_for_pods_off_node, workload_pod_count_on_node,
}
use k8s_safed.Drain.Rollout.StatefulSetWait.{
  check_stateful_set, check_stateful_set_pods, observe_stateful_set, refresh_revision,
  stateful_set_complete, wait_for_stateful_set_rollout,
}
use k8s_safed.Drain.Rollout.Selectors.{
  build_label_selector_string, is_owned_by_uid, list_for_selector, new_replica_set_selector,
  new_revision_selector, selector_at_revision,
}
use k8s_safed.Drain.Rollout.BadPods.{
  bad_waiting_reason, find_bad_pod_state, first_bad_pod, first_bad_status,
}
use k8s_safed.Drain.Options.{pod_vacate_timeout, poll_interval}
use k8s_safed.Cluster.Errors.{is_transient}
use k8s_safed.Base.Text.{append_text, slash3}
use k8s_safed.Base.Maps.{get_text, insert}
use k8s_safed.Drain.Rollout.DeploymentWait.{
  wait_for_deployment_rollout, check_deployment, observe_deployment, deadline_exceeded,
  refresh_selector, check_deployment_pods, deployment_complete, rollout_context, stuck_pod,
}
use k8s_safed.Cluster.Exec.{pure, ignore, lift, raise, try_catch}
use k8s_safed.Drain.Events.{workload_event, build_event, coalesce, create, events_enabled, hex}
use k8s_safed.Drain.Rollout.Restart.{
  coordinate, trigger_restart, restart_and_wait, restart_deployment, already_done, mark_restarted,
  restart_stateful_set, unless_done, unless_ended,
}
use k8s_safed.Cluster.Exec.{gets}
use k8s_safed.Base.Maps.{lookup}
use k8s_safed.Drain.Eviction.Remaining.{evict_remaining}
use k8s_safed.Drain.Runner.{run_workloads}
use k8s_safed.Workload.{is_terminal_pod}
use k8s_safed.Cluster.Exec.{◌>>=◌, in_context, ask}
use k8s_safed.Base.{refl, true, [], ◌∷◌}
use k8s_safed.Cluster.Calls.{caller}
use k8s_safed.Cluster.Env.{Env, ok}
use k8s_safed.Cluster.Exec.{World}
use k8s_safed.Drain.Options.{Options}
use k8s_safed.Drain.Phases.{run}
use k8s_safed.Drain.Runner.{run_workloads}
use k8s_safed.Drain.Runner.Skipped.{AllRestarted}
use k8s_safed.Drain.Runner.Restarted.{run_workloads_restarts}
use k8s_safed.Drain.Rollout.Restart.{rolling_restart}
use k8s_safed.Drain.Rollout.Restart.Finished.{Finished, rolling_restart_finishes}
use k8s_safed.Tests.Cluster.{web, env, poller, options, start, web_pod, lone_pod}

abbrev forced : Options
forced = record options { force = true }

-- The pod is evicted, and another pod of its name is seen afterwards.
abbrev replacing : Env
replacing = record env {
  pods_of = λ h ctx ns sel fields. ok (lone_pod ∷ []);
  pod_of = λ h ctx ns name. ok (record web_pod { uid = "other" });
}

abbrev cleared : World
cleared = (run replacing poller forced caller start).1

abbrev evicted : World
evicted = (evict_remaining replacing poller forced caller [] start).1

abbrev emptied : Env
emptied = record env { pods_of = λ h ctx ns sel fields. ok [] }

abbrev rolled : World
rolled = (rolling_restart emptied poller options caller web start).1

rolling_restart_finishes_example : Finished emptied options caller web start rolled.calls
unfolding rolling_restart ◌>>=◌ coordinate trigger_restart workload_event pure restart_and_wait
    restart_deployment gets in_context ask wait_for_deployment_rollout check_deployment
    observe_deployment deadline_exceeded refresh_selector get_text insert lookup append_text slash3
    is_transient ignore lift raise try_catch build_event coalesce create events_enabled hex
    pod_vacate_timeout poll_interval bad_waiting_reason find_bad_pod_state first_bad_pod
    first_bad_status check_deployment_pods deployment_complete rollout_context stuck_pod
    already_done mark_restarted restart_stateful_set unless_done unless_ended
    build_label_selector_string is_owned_by_uid list_for_selector new_replica_set_selector
    new_revision_selector selector_at_revision check_stateful_set check_stateful_set_pods
    observe_stateful_set refresh_revision stateful_set_complete wait_for_stateful_set_rollout
    check_vacated live_count wait_for_pods_off_node workload_pod_count_on_node is_terminal_pod
    workload_key
rolling_restart_finishes_example =
    rolling_restart_finishes emptied poller options caller web start rolled refl refl

abbrev all_rolled : World
all_rolled = (run_workloads emptied poller options caller (web ∷ []) start).1

run_workloads_restarts_example : AllRestarted emptied options caller start (web ∷ []) all_rolled
unfolding run_workloads run_sorted run_all ◌>>=◌ run_sequential sort_by_priority restart_and_save
    rolling_restart coordinate trigger_restart workload_event pure restart_and_wait
    restart_deployment gets in_context ask wait_for_deployment_rollout check_deployment
    observe_deployment deadline_exceeded refresh_selector get_text lookup check_deployment_pods
    find_bad_pod_state deployment_complete wait_for_pods_off_node check_vacated
    workload_pod_count_on_node lift build_label_selector_string live_count save_progress delete
    get_flag insert append_text slash3 is_transient ignore raise try_catch make_dir_of read_file
    rename_file write_file checkpoint_can_skip same_identity skip_by_identity validate_checkpoint
    decode encode load_checkpoint save checkpoint_work is_done mark_done_at work_of build_event
    coalesce create events_enabled hex pod_vacate_timeout poll_interval bad_waiting_reason
    first_bad_pod first_bad_status rollout_context stuck_pod already_done mark_restarted
    restart_stateful_set unless_done unless_ended is_owned_by_uid list_for_selector
    new_replica_set_selector new_revision_selector selector_at_revision check_stateful_set
    check_stateful_set_pods observe_stateful_set refresh_revision stateful_set_complete
    wait_for_stateful_set_rollout workload_has_pods_on_node insert_by_priority remaining_workloads
    batch_size run_batch run_batches run_remaining run_resumed is_terminal_pod workload_key
run_workloads_restarts_example =
    run_workloads_restarts emptied poller options caller (web ∷ []) start all_rolled refl refl refl
