-- ===== src/Cluster/Files.antt =====
-- The content of a checkpoint file: a document, as encoding/json writes it from the structs
-- Checkpoint and CheckpointWork of pkg/drain/checkpoint.go, or bytes that are none. A field with
-- `omitempty` is left out when it is empty.
use k8s_safed.Base.{String, Bool, Option}
use k8s_safed.Base.Int.{ℤ}
use k8s_safed.Base.Maps.{Map}
use k8s_safed.Cluster.Objects.{Time}

pub record CheckpointWork : Type 0 where
  pub kind : String
  pub namespace : String
  pub name : String
  pub uid : String
  pub generation : ℤ
  pub completed_at : Time

pub record Document : Type 0 where
  pub node_name : String
  pub context : String
  pub completed : Option (Map Bool)
  pub workloads : Option (Map CheckpointWork)

pub data Content : Type 0 where
  document : Document → Content
  garbled : Content
