-- ===== src/Cluster/Calls.antt =====
-- What the program asks of the outside: requests to the API server, waits, and file operations.
-- A run records them, and the answers of the environment are functions of the record.
use k8s_safed.Base.{String, Bool, Option, List}
use k8s_safed.Base.Int.{ℤ}
use k8s_safed.Cluster.Objects.{Time, Duration}

-- The context that a call is made under: the caller's, context.Background(), one with a timeout,
-- and one of an errgroup.
pub data Context : Type 0 where
  caller background : Context
  with_timeout : Duration → Context → Context
  group : Context → Context

pub record Event : Type 0 where
  pub name : String
  pub namespace : String
  pub object_kind : String
  pub object_name : String
  pub object_namespace : String
  pub reason : String
  pub kind : String
  pub timestamp : Time

pub data Request : Type 0 where
  get_node : String → Request
  list_nodes : String → Request
  -- the patch of spec.unschedulable
  patch_node : String → Bool → Request
  -- namespace, label selector, field selector
  list_pods : String → String → String → Request
  get_pod : String → String → Request
  -- namespace, name, grace period
  delete_pod : String → String → Option ℤ → Request
  evict_pod : String → String → Option ℤ → Request
  get_replica_set : String → String → Request
  list_replica_sets : String → String → Request
  get_deployment : String → String → Request
  -- the patch of the restartedAt annotation
  patch_deployment : String → String → Time → Request
  get_stateful_set : String → String → Request
  patch_stateful_set : String → String → Time → Request
  list_budgets : String → Request
  create_event : String → Event → Request

pub data FileOperation : Type 0 where
  read make_dir write remove : String → FileOperation
  rename : String → String → FileOperation

pub data Call : Type 0 where
  request : Context → Request → Call
  pause : Duration → Call
  file : FileOperation → Call

-- Newest first.
abbrev pub History : Type 0
History = List Call
