-- ===== src/Drain/DryRun.antt =====
-- A dry run changes nothing.
pub mod Restarts
pub mod Whole
use k8s_safed.Base.{◌≡◌}
use k8s_safed.Cluster.Exec.{World}
use k8s_safed.Cluster.Exec.Adds.{Added, more}
use k8s_safed.Cluster.Reads.{IsRead, ReadClosed}

-- Since the world `start`, there were only readings, and the rest of the world is the same.
pub record IsUntouched (start w : World) : Type 0 where
  pub only_reads : Added IsRead start.calls w.calls
  pub files : w.files ≡ start.files
  pub restarted : w.restarted ≡ start.restarted

module _ (start : World) where
  pub IsUntouched-ReadClosed : ReadClosed (IsUntouched start)
  IsUntouched-ReadClosed = record {
    reads = λ c r w h. record {
      only_reads = more c r h.only_reads;
      files = h.files;
      restarted = h.restarted;
    };
  }
