-- ===== src/Cluster/Objects.antt =====
-- The fields of the Kubernetes objects (k8s.io/api) that the program reads.
use k8s_safed.Base.{ℕ, String, Bool, Option, List}
use k8s_safed.Base.Int.{ℤ}
use k8s_safed.Base.Maps.{Map}

-- Nanoseconds: `time.Time` as an instant, `time.Duration` as an int64.
abbrev pub Time : Type 0
Time = ℕ

abbrev pub Duration : Type 0
Duration = ℤ

pub record LabelRequirement : Type 0 where
  pub key : String
  pub operator : String
  pub values : List String

-- metav1.LabelSelector
pub record LabelSelector : Type 0 where
  pub match_labels : Map String
  pub match_expressions : List LabelRequirement

pub record Requirement : Type 0 where
  pub key : String
  pub matches : Map String → Bool

-- The interface labels.Selector, as the values of its methods.
pub record Selector : Type 0 where
  pub text : String
  pub is_empty : Bool
  pub matches : Map String → Bool
  pub requirements : List Requirement

pub record OwnerReference : Type 0 where
  pub kind : String
  pub name : String
  pub uid : String
  pub controller : Option Bool

-- `waiting` is State.Waiting with its reason, `last_terminated` whether
-- LastTerminationState.Terminated is set.
pub record ContainerStatus : Type 0 where
  pub waiting : Option String
  pub last_terminated : Bool

-- `empty_dir` is whether the volume's source is an emptyDir.
pub record Volume : Type 0 where
  pub empty_dir : Bool

pub record Pod : Type 0 where
  pub namespace : String
  pub name : String
  pub uid : String
  pub labels : Map String
  pub annotations : Map String
  pub owner_references : List OwnerReference
  pub deletion_timestamp : Option Time
  pub phase : String
  pub volumes : List Volume
  pub init_container_statuses : List ContainerStatus
  pub container_statuses : List ContainerStatus

pub record ReplicaSet : Type 0 where
  pub uid : String
  pub annotations : Map String
  pub owner_references : List OwnerReference
  pub selector : Option LabelSelector

pub record Condition : Type 0 where
  pub type : String
  pub status : String
  pub reason : String

pub record Deployment : Type 0 where
  pub namespace : String
  pub uid : String
  pub generation : ℤ
  pub annotations : Map String
  pub selector : Option LabelSelector
  pub replicas : Option ℤ
  pub strategy : String
  pub paused : Bool
  pub conditions : List Condition
  pub observed_generation : ℤ
  pub updated_replicas : ℤ
  pub ready_replicas : ℤ
  pub available_replicas : ℤ
  pub unavailable_replicas : ℤ

-- `rolling_update` is UpdateStrategy.RollingUpdate with its Partition: two pointers.
pub record StatefulSet : Type 0 where
  pub uid : String
  pub generation : ℤ
  pub annotations : Map String
  pub selector : Option LabelSelector
  pub replicas : Option ℤ
  pub update_strategy : String
  pub rolling_update : Option (Option ℤ)
  pub observed_generation : ℤ
  pub updated_replicas : ℤ
  pub current_replicas : ℤ
  pub ready_replicas : ℤ
  pub update_revision : String
  pub current_revision : String

pub record Node : Type 0 where
  pub name : String
  pub unschedulable : Bool
  pub conditions : List Condition

pub record PodDisruptionBudget : Type 0 where
  pub name : String
  pub selector : Option LabelSelector
  pub disruptions_allowed : ℤ
