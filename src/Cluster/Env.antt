-- ===== src/Cluster/Env.antt =====
-- Errors, and the environment: everything that the program reads from outside. An answer is a
-- function of the calls made so far, so every sequence of answers, failures and changes made by
-- others to the cluster is the behaviour of some environment.
use k8s_safed.Base.{ℕ, String, Bool, true, false, Option, List}
use k8s_safed.Base.Int.{ℤ}
use k8s_safed.Cluster.Objects.{
  Time, Duration, LabelSelector, Selector, Pod, ReplicaSet, Deployment, StatefulSet, Node,
  PodDisruptionBudget,
}
use k8s_safed.Cluster.Calls.{Context, Event, FileOperation, History}

-- A Go error: one of the API server or of a library, by a number; one of the program; an error
-- wrapped by `%w`. The text keeps the constant words of the message.
pub data Error : Type 0 where
  external : ℕ → Error
  not_exist : Error
  message : String → Error
  wrap : String → Error → Error

pub data Result (A : Type 0) : Type 0 where
  ok : A → Result A
  err : Error → Result A

-- errors.Is(e, os.ErrNotExist)
abbrev pub is_not_exist : Error → Bool
is_not_exist (external n) = false
is_not_exist not_exist = true
is_not_exist (message s) = false
is_not_exist (wrap s e) = is_not_exist e

-- The predicates of k8s.io/apimachinery/pkg/api/errors that the program calls.
pub record Status : Type 0 where
  pub is_not_found : Error → Bool
  pub is_internal_error : Error → Bool
  pub is_server_timeout : Error → Bool
  pub is_timeout : Error → Bool
  pub is_too_many_requests : Error → Bool
  pub is_service_unavailable : Error → Bool

pub record Env : Type 0 where
  pub status : Status
  -- metav1.LabelSelectorAsSelector of a selector that is not nil
  pub as_selector : LabelSelector → Result Selector
  pub now : History → Time
  -- ctx.Err()
  pub context_error : History → Context → Option Error
  -- `select { case <-ctx.Done(): … case <-after(d): … }`: some ctx.Err() if the first is taken
  pub select_done : History → Context → Duration → Option Error
  pub node_of : History → Context → String → Result Node
  pub nodes_of : History → Context → String → Result (List Node)
  pub patched_node : History → Context → String → Bool → Result (Unit {0})
  pub pods_of : History → Context → String → String → String → Result (List Pod)
  pub pod_of : History → Context → String → String → Result Pod
  pub deleted_pod : History → Context → String → String → Option ℤ → Result (Unit {0})
  pub evicted_pod : History → Context → String → String → Option ℤ → Result (Unit {0})
  pub replica_set_of : History → Context → String → String → Result ReplicaSet
  pub replica_sets_of : History → Context → String → String → Result (List ReplicaSet)
  pub deployment_of : History → Context → String → String → Result Deployment
  pub patched_deployment : History → Context → String → String → Time → Result Deployment
  pub stateful_set_of : History → Context → String → String → Result StatefulSet
  pub patched_stateful_set : History → Context → String → String → Time → Result StatefulSet
  pub budgets_of : History → Context → String → Result (List PodDisruptionBudget)
  pub created_event : History → Context → String → Event → Result (Unit {0})
  -- whether another drainer of this process has restarted the workload of this key
  pub restarted_elsewhere : History → String → Bool
  -- how many timers may still fire before a context with a timeout is done
  pub rounds_left : History → Context → ℕ
  -- the error of a context that is done
  pub done_error : Context → Error
  -- the failure of a file operation, if it fails for a reason other than a missing file
  pub file_error : History → FileOperation → Option Error
