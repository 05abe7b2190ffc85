-- ===== src/Drain/Rollout/BadPods.antt =====
-- `findBadPodState` and `badWaitingReason` of pkg/drain/rollout.go.
use k8s_safed.Base.{
  String, Bool, Option, none, some, List, [], ◌∷◌, ◌++◌, ◌||◌, ◌==◌, if◌then◌else◌,
}
use k8s_safed.Cluster.Objects.{ContainerStatus, LabelSelector, Pod}
use k8s_safed.Cluster.Calls.{Context}
use k8s_safed.Cluster.Env.{Env}
use k8s_safed.Cluster.Exec.{Exec, pure, lift, in_context, ◌>>=◌}
use k8s_safed.Cluster.Requests.{list_pods}
use k8s_safed.Drain.Rollout.Selectors.{build_label_selector_string}

abbrev reason_of : Option String → Bool → String
reason_of none terminated = ""
reason_of (some reason) terminated =
    if reason == "CrashLoopBackOff"
    then (if terminated then "CrashLoopBackOff" else "")
    else if reason == "ImagePullBackOff" || reason == "ErrImagePull"
    then reason
    else ""

unfoldable pub bad_waiting_reason : ContainerStatus → String
bad_waiting_reason cs = reason_of cs.waiting cs.last_terminated

-- The first reason that is not empty.
unfoldable pub first_bad_status : List ContainerStatus → String
first_bad_status [] = ""
first_bad_status (cs ∷ statuses) =
    if bad_waiting_reason cs == "" then first_bad_status statuses else bad_waiting_reason cs

-- The init containers of a pod come first.
unfoldable pub first_bad_pod : List Pod → Option (String × Pod)
first_bad_pod [] = none
first_bad_pod (pod ∷ pods) =
    let reason = first_bad_status (pod.init_container_statuses ++ pod.container_statuses) in
    if reason == "" then first_bad_pod pods else some (reason, pod)

module _ (env : Env) (ctx : Context) where
  unfoldable pub find_bad_pod_state : String → Option LabelSelector → Exec (Option (String × Pod))
  find_bad_pod_state namespace none = pure none
  find_bad_pod_state namespace (some sel) = do
    s ← in_context "building selector" (lift (build_label_selector_string env (some sel)))
    pods ← in_context "listing pods" (list_pods env ctx namespace s "")
    pure (first_bad_pod pods)
