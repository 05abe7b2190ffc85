-- ===== src/Drain/Rollout/Checks.antt =====
-- The conditions of the waits for a rollout only read.
use k8s_safed.Base.{Option, none, some, String}
use k8s_safed.Base.Int.{ℤ}
use k8s_safed.Cluster.Objects.{Pod, Deployment, StatefulSet}
use k8s_safed.Cluster.Calls.{Context}
use k8s_safed.Cluster.Env.{Env}
use k8s_safed.Cluster.Exec.{World}
use k8s_safed.Cluster.Exec.Keeps.{Keeps, keeps_rules}
use k8s_safed.Cluster.Reads.{ReadClosed, get_deployment-Keeps, get_stateful_set-Keeps}
use k8s_safed.Drain.Rollout.Reads.{find_bad_pod_state-Keeps, new_replica_set_selector-Keeps}
use k8s_safed.Drain.Rollout.DeploymentWait
use k8s_safed.Drain.Rollout.DeploymentWait.{
  SelectorCache, check_deployment_pods, refresh_selector, observe_deployment, check_deployment,
  wait_for_deployment_rollout,
}
use k8s_safed.Drain.Rollout.StatefulSetWait
use k8s_safed.Drain.Rollout.StatefulSetWait.{
  check_stateful_set_pods, refresh_revision, observe_stateful_set, check_stateful_set,
  wait_for_stateful_set_rollout,
}

module _ {P : World → Type 0} (closed : ReadClosed P) (env : Env) (ctx : Context) (ns name : String)
    (target : ℤ) where
  deployment_pod-Keeps :
      (cache : SelectorCache) (dep : Deployment) (o : Option (String × Pod))
      → Keeps P (DeploymentWait.stuck_pod env ctx ns name target cache dep o)
  unfolding DeploymentWait.stuck_pod
  deployment_pod-Keeps cache dep none = search keeps_rules
  deployment_pod-Keeps cache dep (some (reason, pod)) = search keeps_rules

  check_deployment_pods-Keeps :
      (cache : SelectorCache) (dep : Deployment)
      → Keeps P (check_deployment_pods env ctx ns name target cache dep)
  unfolding check_deployment_pods
  check_deployment_pods-Keeps cache dep =
      search (keeps_rules, find_bad_pod_state-Keeps closed env, deployment_pod-Keeps)

  refresh_selector-Keeps :
      (cache : SelectorCache) (dep : Deployment)
      → Keeps P (refresh_selector env ctx ns name target cache dep)
  unfolding refresh_selector
  refresh_selector-Keeps cache dep =
      search (keeps_rules, new_replica_set_selector-Keeps closed env, check_deployment_pods-Keeps)

  observe_deployment-Keeps :
      (cache : SelectorCache) (dep : Deployment)
      → Keeps P (observe_deployment env ctx ns name target cache dep)
  unfolding observe_deployment
  observe_deployment-Keeps cache dep = search (keeps_rules, refresh_selector-Keeps)

  pub check_deployment-Keeps :
      (cache : SelectorCache) → Keeps P (check_deployment env ctx ns name target cache)
  unfolding check_deployment
  check_deployment-Keeps cache =
      search (keeps_rules, get_deployment-Keeps closed env, observe_deployment-Keeps)

  stateful_set_pod-Keeps :
      (cache : SelectorCache) (sts : StatefulSet) (o : Option (String × Pod))
      → Keeps P (StatefulSetWait.stuck_pod env ctx ns name target cache sts o)
  unfolding StatefulSetWait.stuck_pod
  stateful_set_pod-Keeps cache sts none = search keeps_rules
  stateful_set_pod-Keeps cache sts (some (reason, pod)) = search keeps_rules

  check_stateful_set_pods-Keeps :
      (cache : SelectorCache) (sts : StatefulSet)
      → Keeps P (check_stateful_set_pods env ctx ns name target cache sts)
  unfolding check_stateful_set_pods
  check_stateful_set_pods-Keeps cache sts =
      search (keeps_rules, find_bad_pod_state-Keeps closed env, stateful_set_pod-Keeps)

  observe_stateful_set-Keeps :
      (cache : SelectorCache) (sts : StatefulSet)
      → Keeps P (observe_stateful_set env ctx ns name target cache sts)
  unfolding observe_stateful_set
  observe_stateful_set-Keeps cache sts = search (keeps_rules, check_stateful_set_pods-Keeps)

  pub check_stateful_set-Keeps :
      (cache : SelectorCache) → Keeps P (check_stateful_set env ctx ns name target cache)
  unfolding check_stateful_set
  check_stateful_set-Keeps cache =
      search (keeps_rules, get_stateful_set-Keeps closed env, observe_stateful_set-Keeps)
