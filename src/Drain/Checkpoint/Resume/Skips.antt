-- ===== src/Drain/Checkpoint/Resume/Skips.antt =====
-- Which workloads a resumed drain leaves out.
use k8s_safed.Base.{◌≡◌, refl, ap, String, true, false, none, some, ◌==◌, arith, eq_iff}
use k8s_safed.Base.Int.{int_eq}
use k8s_safed.Base.Maps.{Map, lookup, insert, get_flag, lookup-insert}
use k8s_safed.Cluster.Objects.{Time}
use k8s_safed.Cluster.Calls.{Context}
use k8s_safed.Cluster.Env.{Env, ok}
use k8s_safed.Cluster.Exec.{World, pure}
use k8s_safed.Workload.{Workload, workload_key}
use k8s_safed.Drain.Options.{Options}
use k8s_safed.Drain.Checkpoint.{Checkpoint, is_done, work_of, mark_done_at, checkpoint_work}
use k8s_safed.Drain.Checkpoint.Resume.{same_identity, skip_by_identity, checkpoint_can_skip}

lookup_new : {V : Type 0} (k : String) (v : V) (m : Map V) → lookup k (insert k v m) ≡ some v
lookup_new k v m = ground (arith, lookup-insert k k v m, eq_iff k k)

lookup_other :
    {V : Type 0} (k j : String) (v : V) (m : Map V)
    → k == j ≡ false
    → lookup j (insert k v m) ≡ lookup j m
lookup_other k j v m new = rw (lookup-insert k j v m, new) refl

module _ (cp : Checkpoint) (wl : Workload) (t : Time) where
  is_done-mark_done_at : is_done (mark_done_at cp wl t) wl ≡ true
  unfolding is_done mark_done_at get_flag
  is_done-mark_done_at =
      ap (λ o. elim o [ none ↦ false | some b ↦ b ])
        (lookup_new (workload_key wl) true cp.completed)

  work_of-mark_done_at : work_of (mark_done_at cp wl t) wl ≡ some (checkpoint_work wl t)
  unfolding work_of mark_done_at
  work_of-mark_done_at = lookup_new (workload_key wl) (checkpoint_work wl t) cp.workloads

  same_identity-checkpoint_work : same_identity (checkpoint_work wl t) wl ≡ true
  unfolding same_identity checkpoint_work
  same_identity-checkpoint_work =
      let same_uid : wl.uid == wl.uid ≡ true = (eq_iff wl.uid wl.uid).1 refl in
      let same_generation : int_eq wl.generation wl.generation ≡ true = ground arith in
      rw (same_uid, same_generation) (ground arith)

  skips-mark_done_at :
      (env : Env) (opts : Options) (ctx : Context) (w : World)
      → checkpoint_can_skip env opts ctx (mark_done_at cp wl t) wl w ≡ (ok true, w)
  unfolding checkpoint_can_skip skip_by_identity pure
  skips-mark_done_at env opts ctx w =
      rw (is_done-mark_done_at, checkpoint_can_skip)
        (rw (work_of-mark_done_at, skip_by_identity) (rw same_identity-checkpoint_work refl))

-- A workload that is marked as done is skipped with no further call, and for every workload with
-- another key, what the checkpoint says is as before.
pub mark_done_at_skips :
    (env : Env) (opts : Options) (ctx : Context) (cp : Checkpoint) (wl : Workload) (t : Time)
    (w : World)
    → (checkpoint_can_skip env opts ctx (mark_done_at cp wl t) wl w ≡ (ok true, w))
      × ((v : Workload)
          → workload_key wl == workload_key v ≡ false
          → (is_done (mark_done_at cp wl t) v ≡ is_done cp v)
            × (work_of (mark_done_at cp wl t) v ≡ work_of cp v))
unfolding is_done work_of mark_done_at get_flag
mark_done_at_skips env opts ctx cp wl t w = (
  skips-mark_done_at cp wl t env opts ctx w,
  λ v new. (
    ap (λ o. elim o [ none ↦ false | some b ↦ b ]) (lookup_other _ _ true cp.completed new),
    lookup_other _ _ (checkpoint_work wl t) cp.workloads new,
  ),
)
