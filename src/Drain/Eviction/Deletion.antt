-- ===== src/Drain/Eviction/Deletion.antt =====
-- `waitForPodsDeleted` of pkg/drain/eviction.go. The map `seen` is the list of its values: Go
-- ranges over a map in no fixed order, and the list has the order of insertion.
pub mod Swept
pub mod Observed
use k8s_safed.Base.{Bool, true, false, List, [], ◌∷◌, not, ◌&&◌, ◌||◌, ◌==◌, if◌then◌else◌}
use k8s_safed.Base.Text.{slash2}
use k8s_safed.Cluster.Objects.{Duration, Pod}
use k8s_safed.Cluster.Calls.{Context, with_timeout}
use k8s_safed.Cluster.Env.{Env}
use k8s_safed.Cluster.Errors.{is_transient}
use k8s_safed.Cluster.Exec.{Exec, Done, pure, raise, ◌>>=◌, try_catch}
use k8s_safed.Cluster.Requests.{get_pod}
use k8s_safed.Cluster.Poll.{Check, Poller}
use k8s_safed.Workload.{is_terminal_pod}
use k8s_safed.Drain.Options.{Options, poll_interval}

-- A pod with no UID goes by its namespace and name.
unfoldable pub with_uid : Pod → Pod
with_uid pod = if pod.uid == "" then record pod { uid = slash2 pod.namespace pod.name } else pod

-- `seen[pod.UID] = pod`
unfoldable pub see : Pod → List Pod → List Pod
see pod [] = pod ∷ []
see pod (p ∷ seen) = if p.uid == pod.uid then pod ∷ seen else p ∷ see pod seen

unfoldable pub see_all : List Pod → List Pod → List Pod
unfolding with_uid see
see_all seen [] = seen
see_all seen (pod ∷ pods) = see_all (see (with_uid pod) seen) pods

-- Whether the object of this name is no longer the pod that was seen, or has ended.
unfoldable pub has_gone : Pod → Pod → Bool
has_gone pod current =
    (not (current.uid == "") && (not (pod.uid == "") && not (current.uid == pod.uid)))
    || is_terminal_pod current

abbrev no_pod : List Pod → Bool
no_pod [] = true
no_pod (p ∷ ps) = false

module _ (env : Env) (ctx : Context) where
  -- The body of the loop over `seen`, before the rest of the loop.
  unfoldable pub sweep_one : Pod → List Pod → Exec (List Pod × Bool) → Exec (List Pod × Bool)
  sweep_one pod pods rest =
      try_catch (get_pod env ctx pod.namespace pod.name)
        (λ current.
          if has_gone pod current
          then rest
          else do (left, aborted) ← rest; pure (pod ∷ left, aborted))
        (λ e.
          if env.status.is_not_found e
          then rest
          else if is_transient env e
          then pure (pod ∷ pods, true)
          else raise e)

  -- The loop over `seen`: those that stay in it, and whether a transient error ended the loop.
  unfoldable pub sweep : List Pod → Exec (List Pod × Bool)
  sweep [] = pure ([], false)
  sweep (pod ∷ pods) = sweep_one pod pods (sweep pods)

  unfoldable pub check_deleted : Check (List Pod)
  check_deleted seen = do (left, aborted) ← sweep seen; pure (left, not aborted && no_pod left)

module _ (env : Env) (poller : Poller) (opts : Options) where
  unfoldable pub wait_for_pods_deleted : Context → List Pod → Duration → Exec Done
  unfolding check_deleted see_all
  wait_for_pods_deleted ctx pods timeout =
      let poll_ctx = with_timeout timeout ctx in
      if no_pod pods
      then pure tt
      else poller.poll (List Pod) poll_ctx (poll_interval opts) (check_deleted env poll_ctx)
          (see_all [] pods)
