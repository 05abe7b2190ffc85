-- ===== src/Drain/Work.antt =====
-- The calls of a drain other than the patches of its node, and what they all keep.
pub mod Restarts
pub mod Evictions
use k8s_safed.Base.{◌≡◌, Option, none, some, String, Bool, List, ◌∷◌, Option-cases, inl, inr}
use k8s_safed.Base.Maps.{Map, lookup}
use k8s_safed.Cluster.Objects.{Time}
use k8s_safed.Base.Int.{ℤ}
use k8s_safed.Cluster.Calls
use k8s_safed.Cluster.Calls.{Context, Call, Request, Event, FileOperation}
use k8s_safed.Cluster.Env.{Env, Error, Result, ok, err}
use k8s_safed.Cluster.Files.{Content}
use k8s_safed.Cluster.Exec.{World, Exec}
use k8s_safed.Cluster.Exec.Keeps.{Keeps, Keeps-ask}
use k8s_safed.Cluster.Reads.{IsRead, ReadClosed}
use k8s_safed.Cluster.Requests.{
  delete_pod, evict_pod, patch_deployment, patch_stateful_set, create_event, failing, make_dir_of,
  write_file, rename_file, remove_file, moved, removed,
}

-- Every call but a patch of a node.
abbrev pub IsWork : Call → Type 0
IsWork (Call.request ctx (Request.patch_node name b)) = ⊥
IsWork c = Unit

-- A property that no such call changes, nor a change of the files or of the recorded restarts.
pub record WorkClosed (P : World → Type 0) : Type 0 where
  pub works : (c : Call) → IsWork c → (w : World) → P w → P (record w { calls = c ∷ w.calls })
  pub effects :
      (w : World) (files : Map Content) (restarted : List String)
      → P w
      → P (record w { files = files; restarted = restarted })

module _ {P : World → Type 0} (closed : WorkClosed P) where
  IsRead-IsWork : (c : Call) → IsRead c → IsWork c
  IsRead-IsWork (Call.request ctx (Request.patch_node name b)) r = r
  IsRead-IsWork c r = tt

  pub WorkClosed-ReadClosed : ReadClosed P
  WorkClosed-ReadClosed = record { reads = λ c r. closed.works c (IsRead-IsWork c r) }

  module _ (env : Env) where
    pub delete_pod-Keeps :
        (ctx : Context) (ns name : String) (grace : Option ℤ)
        → Keeps P (delete_pod env ctx ns name grace)
    delete_pod-Keeps ctx ns name grace = Keeps-ask _ _ (closed.works _ tt)

    pub evict_pod-Keeps :
        (ctx : Context) (ns name : String) (grace : Option ℤ)
        → Keeps P (evict_pod env ctx ns name grace)
    evict_pod-Keeps ctx ns name grace = Keeps-ask _ _ (closed.works _ tt)

    pub patch_deployment-Keeps :
        (ctx : Context) (ns name : String) (t : Time) → Keeps P (patch_deployment env ctx ns name t)
    patch_deployment-Keeps ctx ns name t = Keeps-ask _ _ (closed.works _ tt)

    pub patch_stateful_set-Keeps :
        (ctx : Context) (ns name : String) (t : Time)
        → Keeps P (patch_stateful_set env ctx ns name t)
    patch_stateful_set-Keeps ctx ns name t = Keeps-ask _ _ (closed.works _ tt)

    pub create_event-Keeps :
        (ctx : Context) (ns : String) (e : Event) → Keeps P (create_event env ctx ns e)
    create_event-Keeps ctx ns e = Keeps-ask _ _ (closed.works _ tt)

    pub make_dir_of-Keeps : (path : String) → Keeps P (make_dir_of env path)
    unfolding make_dir_of
    make_dir_of-Keeps path = Keeps-ask _ _ (closed.works _ tt)

    pub write_file-Keeps : (path : String) (c : Content) → Keeps P (write_file env path c)
    unfolding write_file
    write_file-Keeps path c = record {
      at = λ w h. elim (Option-cases (env.file_error w.calls (FileOperation.write path))) [
        | inl fine ↦ rw fine (closed.effects _ _ _ (closed.works _ tt w h))
        | inr (e, failed) ↦ rw failed (closed.effects _ _ _ (closed.works _ tt w h))
      ];
    }

    pub rename_file-Keeps : (from to : String) → Keeps P (rename_file env from to)
    unfolding rename_file
    rename_file-Keeps from to = record {
      at = λ w h. elim (Option-cases (env.file_error w.calls (FileOperation.rename from to))) [
        | inr (e, failed) ↦ rw failed (closed.works _ tt w h)
        | inl fine ↦ elim (Option-cases (lookup from w.files)) [
          | inl missing ↦ rw (fine, missing) (closed.works _ tt w h)
          | inr (c, there) ↦ rw (fine, there) (closed.effects _ _ _ (closed.works _ tt w h))
        ]
      ];
    }

    pub remove_file-Keeps : (path : String) → Keeps P (remove_file env path)
    unfolding remove_file
    remove_file-Keeps path = record {
      at = λ w h. elim (Option-cases (env.file_error w.calls (FileOperation.remove path))) [
        | inr (e, failed) ↦ rw failed (closed.works _ tt w h)
        | inl fine ↦ elim (Option-cases (lookup path w.files)) [
          | inl missing ↦ rw (fine, missing) (closed.works _ tt w h)
          | inr (c, there) ↦ rw (fine, there) (closed.effects _ _ _ (closed.works _ tt w h))
        ]
      ];
    }
