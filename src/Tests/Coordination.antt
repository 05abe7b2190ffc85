-- ===== src/Tests/Coordination.antt =====
-- The coordinator, at one interleaving: a restart fails, and the next one succeeds.
use k8s_safed.Base.{◌≡◌, ◌≢◌, ◌↔◌, refl, true}
use k8s_safed.Base.Maps.{lookup, insert, delete}
use k8s_safed.Drain.Coordinator.{
  WorkloadCoordinator, new_workload_coordinator, at_stage, unlocked, logged, marked, checking,
  restarting, returning, began, failed, succeeded, is_done_by, Reachable, initial, next, lock,
  start, fail, succeed,
}
use k8s_safed.Drain.Coordinator.Restarts.{progress, broken, finished, restarts_once}

abbrev after_failure : WorkloadCoordinator
after_failure = unlocked "web" (
    logged "web" failed (
      at_stage "web" restarting
        (logged "web" began (at_stage "web" checking new_workload_coordinator))))

abbrev after_success : WorkloadCoordinator
after_success = at_stage "web" returning (
    marked "web" (
      logged "web" succeeded
        (at_stage "web" restarting (logged "web" began (at_stage "web" checking after_failure)))))

after_success-Reachable : Reachable after_success
unfolding lookup insert delete
after_success-Reachable =
    next
      (next
        (next
          (next (next (next initial (lock "web" refl)) (start "web" refl refl)) (fail "web" refl))
          (lock "web" refl))
        (start "web" refl refl))
      (succeed "web" refl)

restarts_once_example :
    (progress "web" after_success.log ≢ broken)
    × ((is_done_by "web" after_success.done ≡ true) ↔ (progress "web" after_success.log ≡ finished))
restarts_once_example = restarts_once after_success after_success-Reachable "web"
