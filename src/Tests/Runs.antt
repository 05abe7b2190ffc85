-- ===== src/Tests/Runs.antt =====
-- The theorems on rollouts and on whole drains, at the small cluster.
use k8s_safed.Cluster.Exec.Meets.{Post}
use k8s_safed.Drain.Uncordon.{AfterSuccess, AfterFailure}
use k8s_safed.Drain.Uncordon.Whole.{run_uncordons}
use k8s_safed.Drain.Phases.{drain_context}
use k8s_safed.Drain.Rollout.Selectors.{new_revision_selector, build_label_selector_string}
use k8s_safed.Drain.Rollout.BadPods.{first_bad_pod, first_bad_status}
use k8s_safed.Cluster.Exec.{◌>>=◌, in_context, lift}
use k8s_safed.Drain.Rollout.StatefulSetWait.{
  check_stateful_set, observe_stateful_set, check_stateful_set_pods, refresh_revision,
  stateful_set_complete,
}
use k8s_safed.Drain.Rollout.BadPods.{find_bad_pod_state}
use k8s_safed.Base.Maps.{get_text, lookup}
use k8s_safed.Cluster.Exec.{try_catch, ask, pure}
use k8s_safed.Drain.Rollout.DeploymentWait.{
  check_deployment, observe_deployment, deadline_exceeded, refresh_selector, check_deployment_pods,
  deployment_complete,
}
use k8s_safed.Base.{refl, true, []}
use k8s_safed.Base.Int.{pos}
use k8s_safed.Cluster.Calls.{caller}
use k8s_safed.Cluster.Exec.{World}
use k8s_safed.Drain.Options.{Options}
use k8s_safed.Drain.Rollout.DeploymentWait.{rollout_context, wait_for_deployment_rollout}
use k8s_safed.Drain.Rollout.StatefulSetWait.{wait_for_stateful_set_rollout}
use k8s_safed.Drain.Rollout.DeploymentWait.Observed.{
  SawComplete, wait_for_deployment_rollout_complete,
}
use k8s_safed.Drain.Rollout.StatefulSetWait.Observed.{
  SawSettled, wait_for_stateful_set_rollout_complete,
}
use k8s_safed.Drain.DryRun.{IsUntouched}
use k8s_safed.Drain.DryRun.Whole.{run_dry}
use k8s_safed.Drain.Phases.{run}
use k8s_safed.Tests.Cluster.{env, poller, options, start}

abbrev deployment_end : World
deployment_end =
    (wait_for_deployment_rollout env poller options caller "shop" "web" (pos 4) start).1

wait_for_deployment_rollout_complete_example :
    SawComplete env (rollout_context options caller) "shop" "web" (pos 4) [] deployment_end
unfolding wait_for_deployment_rollout check_deployment try_catch ask observe_deployment
    deadline_exceeded refresh_selector get_text lookup check_deployment_pods find_bad_pod_state pure
    deployment_complete
wait_for_deployment_rollout_complete_example =
    wait_for_deployment_rollout_complete env poller options caller "shop" "web" (pos 4) start
      deployment_end refl

abbrev stateful_set_end : World
stateful_set_end =
    (wait_for_stateful_set_rollout env poller options caller "shop" "db" (pos 7) start).1

wait_for_stateful_set_rollout_complete_example :
    SawSettled env (rollout_context options caller) "shop" "db" (pos 7) [] stateful_set_end
unfolding wait_for_stateful_set_rollout check_stateful_set try_catch ask observe_stateful_set
    check_stateful_set_pods find_bad_pod_state refresh_revision new_revision_selector ◌>>=◌
    in_context lift build_label_selector_string first_bad_pod first_bad_status stateful_set_complete
wait_for_stateful_set_rollout_complete_example =
    wait_for_stateful_set_rollout_complete env poller options caller "shop" "db" (pos 7) start
      stateful_set_end refl

abbrev rehearsal : Options
rehearsal = record options { dry_run = true }

run_dry_example : IsUntouched start (run env poller rehearsal caller start).1
run_dry_example = run_dry env poller rehearsal caller start refl

run_uncordons_example :
    Post
      (λ _. AfterSuccess env options (drain_context env poller options caller) [])
      (λ _. AfterFailure env options (drain_context env poller options caller) [])
      (run env poller options caller start)
run_uncordons_example = run_uncordons env poller options caller start
