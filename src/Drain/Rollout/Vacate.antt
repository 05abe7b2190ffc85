-- ===== src/Drain/Rollout/Vacate.antt =====
-- The pods of a workload on the node: `workloadPodCountOnNode`, `workloadHasPodsOnNode` and
-- `waitForPodsOffNode` of pkg/drain/rollout.go.
pub mod Observed
use k8s_safed.Base.{ℕ, Bool, true, false, List, not, length, keep_if, ltb, if◌then◌else◌}
use k8s_safed.Base.Text.{append_text}
use k8s_safed.Cluster.Objects.{Pod}
use k8s_safed.Cluster.Calls.{Context, with_timeout}
use k8s_safed.Cluster.Env.{Env}
use k8s_safed.Cluster.Errors.{is_transient}
use k8s_safed.Cluster.Exec.{Exec, Done, pure, raise, lift, in_context, ◌>>=◌, try_catch}
use k8s_safed.Cluster.Requests.{list_pods}
use k8s_safed.Cluster.Poll.{Check, Poller}
use k8s_safed.Workload.{Workload, is_terminal_pod}
use k8s_safed.Drain.Options.{Options, poll_interval, pod_vacate_timeout}
use k8s_safed.Drain.Rollout.Selectors.{build_label_selector_string}

-- The loop that counts the pods that have not ended.
unfoldable pub live_count : List Pod → ℕ
live_count pods = length (keep_if (λ pod. not (is_terminal_pod pod)) pods)

module _ (env : Env) (opts : Options) where
  unfoldable pub workload_pod_count_on_node : Context → Workload → Exec ℕ
  workload_pod_count_on_node ctx w = do
    s ← in_context "building pod selector" (lift (build_label_selector_string env w.selector))
    pods ← list_pods env ctx w.namespace s (append_text "spec.nodeName=" opts.node_name)
    pure (live_count pods)

  unfoldable pub workload_has_pods_on_node : Context → Workload → Exec Bool
  workload_has_pods_on_node ctx w = do count ← workload_pod_count_on_node ctx w; pure (ltb 0 count)

  unfoldable pub check_vacated : Context → Workload → Check (Unit {0})
  check_vacated ctx w s =
      try_catch (workload_pod_count_on_node ctx w)
        (λ count. if ltb 0 count then pure (tt, false) else pure (tt, true))
        (λ e. if is_transient env e then pure (tt, false) else raise e)

module _ (env : Env) (poller : Poller) (opts : Options) where
  unfoldable pub wait_for_pods_off_node : Context → Workload → Exec Done
  wait_for_pods_off_node ctx w =
      let vacate_ctx = with_timeout (pod_vacate_timeout opts) ctx in
      poller.poll (Unit {0}) vacate_ctx (poll_interval opts) (check_vacated env opts vacate_ctx w)
        tt
