-- ===== src/Workload.antt =====
-- pkg/workload/workload.go: the workloads that own pods on a node.
pub mod Priority
pub mod Finder
use k8s_safed.Base.{
  String, Bool, true, false, Option, none, some, List, [], ◌∷◌, not, ◌||◌, ◌==◌, if◌then◌else◌,
}
use k8s_safed.Base.Int.{ℤ}
use k8s_safed.Base.Text.{slash3}
use k8s_safed.Cluster.Objects.{LabelSelector, OwnerReference, Pod}

-- The type Kind is a string with two constants.
pub data Kind : Type 0 where
  deployment stateful_set : Kind
  other : String → Kind

abbrev pub kind_text : Kind → String
kind_text deployment = "Deployment"
kind_text stateful_set = "StatefulSet"
kind_text (other s) = s

pub record Workload : Type 0 where
  pub kind : Kind
  pub namespace : String
  pub name : String
  pub uid : String
  pub generation : ℤ
  pub selector : Option LabelSelector
  pub priority : ℤ
  pub priority_annotation_value : String
  pub priority_annotation_invalid : Bool

-- `workloadKey` and `wSubject`, and the key that `FindForNode` writes out.
unfoldable pub workload_key : Workload → String
workload_key w = slash3 (kind_text w.kind) w.namespace w.name

unfoldable pub is_terminal_pod : Pod → Bool
is_terminal_pod pod = pod.phase == "Succeeded" || pod.phase == "Failed"

abbrev is_owner_kind : String → Bool
is_owner_kind k =
    k == "ReplicaSet"
    || (k == "Deployment"
        || (k == "StatefulSet" || (k == "DaemonSet" || (k == "Job" || k == "CronJob"))))

-- The first reference that controls and is of a known kind.
unfoldable pub controller_owner_ref : List OwnerReference → Option OwnerReference
controller_owner_ref [] = none
controller_owner_ref (ref ∷ refs) =
    let rest = controller_owner_ref refs in
    elim ref.controller [
      | none ↦ rest
      | some false ↦ rest
      | some true ↦ if is_owner_kind ref.kind then some ref else rest
    ]
