-- ===== src/Tests/Batches.antt =====
-- A batch of two workloads, whose goroutines interleave.
use k8s_safed.Workload.{is_terminal_pod, workload_key}
use k8s_safed.Drain.Rollout.Vacate.{
  check_vacated, live_count, wait_for_pods_off_node, workload_pod_count_on_node,
}
use k8s_safed.Drain.Rollout.StatefulSetWait.{
  check_stateful_set, check_stateful_set_pods, observe_stateful_set, refresh_revision,
  stateful_set_complete, wait_for_stateful_set_rollout,
}
use k8s_safed.Drain.Rollout.Selectors.{
  build_label_selector_string, is_owned_by_uid, list_for_selector, new_replica_set_selector,
  new_revision_selector, selector_at_revision,
}
use k8s_safed.Drain.Rollout.BadPods.{
  bad_waiting_reason, find_bad_pod_state, first_bad_pod, first_bad_status,
}
use k8s_safed.Drain.Options.{pod_vacate_timeout, poll_interval}
use k8s_safed.Drain.Checkpoint.{checkpoint_work, mark_done_at}
use k8s_safed.Drain.Checkpoint.Store.{encode, save}
use k8s_safed.Cluster.Requests.{make_dir_of, rename_file, write_file}
use k8s_safed.Cluster.Errors.{is_transient}
use k8s_safed.Base.Text.{append_text, slash3}
use k8s_safed.Base.Maps.{delete, get_text, insert, lookup}
use k8s_safed.Drain.Rollout.DeploymentWait.{
  wait_for_deployment_rollout, check_deployment, observe_deployment, check_deployment_pods,
  deadline_exceeded, deployment_complete, refresh_selector, rollout_context, stuck_pod,
}
use k8s_safed.Drain.Events.{workload_event, build_event, coalesce, create, events_enabled, hex}
use k8s_safed.Drain.Rollout.Restart.{
  rolling_restart, coordinate, trigger_restart, restart_and_wait, restart_deployment, already_done,
  mark_restarted, restart_stateful_set, unless_done, unless_ended,
}
use k8s_safed.Drain.Runner.{restart_and_save, save_progress}
use k8s_safed.Cluster.Exec.{try_catch, ◌>>=◌, pure, gets, in_context, ask, ignore, lift, raise}
use k8s_safed.Base.{◌≡◌, ◌⊎◌, refl, ◌≤◌, ◌*◌, false, none, some, List, [], ◌∷◌, any, length}
use k8s_safed.Cluster.Calls.{caller}
use k8s_safed.Workload.{Workload}
use k8s_safed.Drain.Checkpoint.{Checkpoint, new_checkpoint}
use k8s_safed.Drain.Runner.{run_batch}
use k8s_safed.Drain.Runner.Batch.{
  waits, ended, Batch, marked, here, there, restarted, locks, records, stores, loses, Steps,
  none_yet, then, started,
}
use k8s_safed.Drain.Runner.Batch.Recorded.{IsExact, batch-IsExact}
use k8s_safed.Drain.Runner.Batch.Ends.{is_running, steps_taken, CanStep, batch_ends}
use k8s_safed.Drain.Runner.Batch.Agree.{done_set, add_all, batch_adds_all}
use k8s_safed.Base.{All}
use k8s_safed.Cluster.Exec.{World}
use k8s_safed.Drain.Runner.Batch.Schedule.{IsInterleaving, Succeeded, run_batch-scheduled}
use k8s_safed.Tests.Cluster.{poller, start, web}
use k8s_safed.Tests.Resumption.{recorded, emptied, done_once}

abbrev api : Workload
api = record web { name = "api" }

abbrev pair : List Workload
pair = web ∷ api ∷ []

-- The second restart ends first, and is recorded first.
abbrev api_first : Checkpoint
api_first = marked recorded new_checkpoint api 5

abbrev web_later : Checkpoint
web_later = marked recorded api_first web 6

abbrev between : Batch
between = record {
  tasks = (web, waits) ∷ (api, ended) ∷ [];
  checkpoint = api_first;
  stored = some api_first;
  first_error = none;
}

abbrev over : Batch
over = record {
  tasks = (web, ended) ∷ (api, ended) ∷ [];
  checkpoint = web_later;
  stored = some api_first;
  first_error = none;
}

run_between : Steps recorded (started new_checkpoint pair) between
run_between =
    then
      (then
        (then (then (then none_yet (restarted api (there here))) (locks api refl refl (there here)))
          (restarted web here))
        (records api 5 (there here)))
      (stores api (there here))

run_over : Steps recorded (started new_checkpoint pair) over
run_over =
    then (then (then run_between (locks web refl refl here)) (records web 6 here)) (loses web here)

batch-IsExact_example : IsExact recorded new_checkpoint between
batch-IsExact_example = batch-IsExact recorded new_checkpoint pair between run_between

batch_ends_example :
    (steps_taken recorded run_between ≤ 4 * length pair)
    × ((any is_running between.tasks ≡ false) ⊎ CanStep recorded between)
batch_ends_example = batch_ends recorded new_checkpoint pair between run_between

batch_adds_all_example : done_set web_later ≡ add_all pair (done_set new_checkpoint)
batch_adds_all_example = batch_adds_all recorded new_checkpoint pair over refl run_over refl refl

abbrev batch_end : World
batch_end = (run_batch emptied poller recorded caller new_checkpoint (web ∷ []) start).1

run_batch-scheduled_example :
    IsInterleaving recorded new_checkpoint (web ∷ []) done_once
    × All (Succeeded emptied poller recorded caller [] batch_end.calls) (web ∷ [])
unfolding run_batch try_catch restart_and_save ◌>>=◌ rolling_restart coordinate trigger_restart
    workload_event pure restart_and_wait restart_deployment gets in_context ask
    wait_for_deployment_rollout check_deployment observe_deployment delete get_text insert lookup
    append_text slash3 is_transient ignore lift raise make_dir_of rename_file write_file encode save
    checkpoint_work mark_done_at build_event coalesce create events_enabled hex pod_vacate_timeout
    poll_interval bad_waiting_reason find_bad_pod_state first_bad_pod first_bad_status
    check_deployment_pods deadline_exceeded deployment_complete refresh_selector rollout_context
    stuck_pod already_done mark_restarted restart_stateful_set unless_done unless_ended
    build_label_selector_string is_owned_by_uid list_for_selector new_replica_set_selector
    new_revision_selector selector_at_revision check_stateful_set check_stateful_set_pods
    observe_stateful_set refresh_revision stateful_set_complete wait_for_stateful_set_rollout
    check_vacated live_count wait_for_pods_off_node workload_pod_count_on_node save_progress
    is_terminal_pod workload_key
run_batch-scheduled_example =
    run_batch-scheduled emptied poller recorded caller new_checkpoint (web ∷ []) start batch_end
      refl
