-- ===== src/Tests/Cluster.antt =====
-- A node with the pods of a Deployment, a DaemonSet and one with no owner, and a server that
-- accepts every request.
use k8s_safed.Base.{String, Bool, true, false, none, some, List, [], ◌∷◌}
use k8s_safed.Base.Int.{pos}
use k8s_safed.Cluster.Objects.{
  LabelSelector, OwnerReference, Pod, ReplicaSet, Deployment, StatefulSet, Node,
}
use k8s_safed.Cluster.Env.{Env, Error, ok}
use k8s_safed.Cluster.Exec.{World}
use k8s_safed.Cluster.Poll.{Poller}
use k8s_safed.Cluster.Poll.Bounded.{bounded_poller}
use k8s_safed.Workload.{Workload, deployment}
use k8s_safed.Drain.Options.{Options, off}

abbrev pub web_selector : LabelSelector
web_selector = record { match_labels = ("app", "web") ∷ []; match_expressions = [] }

abbrev pub owner : String → String → OwnerReference
owner kind name = record { kind = kind; name = name; uid = "u1"; controller = some true }

abbrev pub pod_of_owners : String → List OwnerReference → Pod
pod_of_owners name owners = record {
  namespace = "shop";
  name = name;
  uid = name;
  labels = ("app", name) ∷ [];
  annotations = [];
  owner_references = owners;
  deletion_timestamp = none;
  phase = "Running";
  volumes = [];
  init_container_statuses = [];
  container_statuses = [];
}

abbrev pub web_pod : Pod
web_pod = pod_of_owners "web" (owner "ReplicaSet" "web-1" ∷ [])

abbrev pub agent_pod : Pod
agent_pod = pod_of_owners "agent" (owner "DaemonSet" "agent" ∷ [])

abbrev pub lone_pod : Pod
lone_pod = pod_of_owners "lone" []

abbrev pub web_deployment : Deployment
web_deployment = record {
  namespace = "shop";
  uid = "u1";
  generation = pos 4;
  annotations = [];
  selector = some web_selector;
  replicas = some (pos 1);
  strategy = "RollingUpdate";
  paused = false;
  conditions = [];
  observed_generation = pos 4;
  updated_replicas = pos 1;
  ready_replicas = pos 1;
  available_replicas = pos 1;
  unavailable_replicas = pos 0;
}

abbrev pub store_set : StatefulSet
store_set = record {
  uid = "u2";
  generation = pos 7;
  annotations = [];
  selector = some web_selector;
  replicas = none;
  update_strategy = "RollingUpdate";
  rolling_update = none;
  observed_generation = pos 7;
  updated_replicas = pos 1;
  current_replicas = pos 1;
  ready_replicas = pos 1;
  update_revision = "r2";
  current_revision = "r2";
}

abbrev pub web_replica_set : ReplicaSet
web_replica_set = record {
  uid = "u1";
  annotations = [];
  owner_references = owner "Deployment" "web" ∷ [];
  selector = some web_selector;
}

abbrev pub node : Node
node = record { name = "n1"; unschedulable = false; conditions = [] }

abbrev never : Error → Bool
never e = false

abbrev pub env : Env
env = record {
  status = record {
    is_not_found = never;
    is_internal_error = never;
    is_server_timeout = never;
    is_timeout = never;
    is_too_many_requests = never;
    is_service_unavailable = never;
  };
  as_selector = λ sel.
      ok (record {
        text = "app=web";
        is_empty = false;
        matches = λ labels. false;
        requirements = [];
      });
  now = λ h. 5;
  context_error = λ h ctx. none;
  select_done = λ h ctx d. none;
  node_of = λ h ctx name. ok node;
  nodes_of = λ h ctx sel. ok (node ∷ []);
  patched_node = λ h ctx name b. ok tt;
  pods_of = λ h ctx ns sel fields. ok (web_pod ∷ agent_pod ∷ lone_pod ∷ []);
  pod_of = λ h ctx ns name. ok web_pod;
  deleted_pod = λ h ctx ns name grace. ok tt;
  evicted_pod = λ h ctx ns name grace. ok tt;
  replica_set_of = λ h ctx ns name. ok web_replica_set;
  replica_sets_of = λ h ctx ns sel. ok (web_replica_set ∷ []);
  deployment_of = λ h ctx ns name. ok web_deployment;
  patched_deployment = λ h ctx ns name t. ok web_deployment;
  stateful_set_of = λ h ctx ns name. ok store_set;
  patched_stateful_set = λ h ctx ns name t. ok store_set;
  budgets_of = λ h ctx ns. ok [];
  created_event = λ h ctx ns e. ok tt;
  restarted_elsewhere = λ h key. false;
  rounds_left = λ h ctx. 3;
  done_error = λ ctx. Error.message "context deadline exceeded";
  file_error = λ h op. none;
}

abbrev pub poller : Poller
poller = bounded_poller 2

abbrev pub options : Options
options = record {
  node_name = "n1";
  dry_run = false;
  timeout = pos 0;
  skip_daemon_sets = true;
  delete_empty_dir = false;
  grace_period = pos 30;
  rollout_timeout = pos 0;
  force = false;
  force_delete_standalone = false;
  poll_interval = pos 0;
  pod_vacate_timeout = pos 0;
  eviction_timeout = pos 0;
  pdb_retry_interval = pos 0;
  max_concurrency = pos 1;
  uncordon_on_failure = true;
  preflight = off;
  stateful_name_patterns = [];
  skip_workloads = [];
  only_workloads = [];
  emit_events = false;
  resume = false;
  checkpoint_path = "";
  checkpoint_context = "";
  coordinated = false;
}

abbrev pub start : World
start = record { calls = []; files = []; restarted = [] }

abbrev pub web : Workload
web = record {
  kind = deployment;
  namespace = "shop";
  name = "web";
  uid = "u1";
  generation = pos 4;
  selector = some web_selector;
  priority = pos 100;
  priority_annotation_value = "";
  priority_annotation_invalid = false;
}
