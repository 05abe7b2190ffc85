-- ===== src/Drain/Runner/Batch/Recorded.antt =====
-- What the checkpoint and its file have at any moment of a batch.
use k8s_safed.Base.{
  ◌≡◌, refl, sym, subst, ◌∙◌, Bool, true, false, Option, none, some, List, [], ◌∷◌, ◌||◌, ◌&&◌,
  ◌==◌, not, map, any, is_some, arith, Bool-cases, inl, inr, ◌≤◌,
}
use k8s_safed.Base.Maps.{get_flag-insert}
use k8s_safed.Cluster.Objects.{Time}
use k8s_safed.Cluster.Env.{Error}
use k8s_safed.Workload.{Workload, workload_key}
use k8s_safed.Drain.Options.{Options}
use k8s_safed.Drain.Checkpoint.{Checkpoint, is_done, mark_done_at}
use k8s_safed.Drain.Runner.Batch.{
  Goroutine, restarts, marks, writes, ended, failed, Task, Move, Batch, saves_nothing, or_first,
  marked, Step, restarted, fails, skips, locks, records, stores, loses, Steps, none_yet, then,
  started,
}
use k8s_safed.Drain.Runner.Batch.Moves.{
  Move-any_new, Move-any_same, total, Move-total, Move-size_le, hold_size, total-free,
}

-- The task's restart succeeded, and the checkpoint was changed for it.
abbrev pub is_recorded : Goroutine → Bool
is_recorded writes = true
is_recorded ended = true
is_recorded _ = false

abbrev pub is_failed : Task → Bool
is_failed (w, failed e) = true
is_failed (w, _) = false

-- A task of the same workload that is recorded.
abbrev pub records_it : Workload → Task → Bool
records_it v (w, g) = is_recorded g && workload_key w == workload_key v

is_done-marked :
    (opts : Options) (cp : Checkpoint) (w v : Workload) (time : Time)
    → is_done (marked opts cp w time) v ≡ workload_key w == workload_key v || is_done cp v
unfolding is_done mark_done_at
is_done-marked opts cp w v time = get_flag-insert (workload_key w) (workload_key v) cp.completed

module _ (opts : Options) (before : Checkpoint) where
  -- The checkpoint has what it had before the batch and the workloads that are recorded, and no
  -- more; the file has no more than the checkpoint; and there is an error exactly when a restart
  -- failed.
  pub record IsExact (b : Batch) : Type 0 where
    pub checkpoint :
        (v : Workload)
        → is_done b.checkpoint v
          ≡ not (saves_nothing opts) && any (records_it v) b.tasks || is_done before v
    pub stored :
        (file : Checkpoint) (v : Workload)
        → b.stored ≡ some file
        → is_done file v ≡ true
        → is_done b.checkpoint v ≡ true
    pub first_error : is_some b.first_error ≡ any is_failed b.tasks
    pub holders : total hold_size b.tasks ≤ 1
    pub saving : saves_nothing opts ≡ true → total hold_size b.tasks ≡ 0

  or_first_some : (o : Option Error) (e : Error) → is_some (or_first o e) ≡ true
  or_first_some none e = refl
  or_first_some (some first) e = refl

  some_inj : {a c : Checkpoint} → some a ≡ some c → a ≡ c
  some_inj e = ground arith

  started-IsExact : (ws : List Workload) → IsExact (started before ws)
  started-IsExact ws = record {
    checkpoint = λ v. rw (none_recorded v ws) (none_left _ _);
    stored = λ file v e h. absurd (ground arith);
    first_error = sym (none_failed ws);
    holders = omega (arith, none_hold ws);
    saving = λ off. none_hold ws;
  }
    where
      none_recorded :
          (v : Workload) (ws : List Workload)
          → any (records_it v) (map (λ w. (w, restarts)) ws) ≡ false
      none_recorded v [] = refl
      none_recorded v (w ∷ ws) = none_recorded v ws

      none_failed : (ws : List Workload) → any is_failed (map (λ w. (w, restarts)) ws) ≡ false
      none_failed [] = refl
      none_failed (w ∷ ws) = none_failed ws

      none_hold : (ws : List Workload) → total hold_size (map (λ w. (w, restarts)) ws) ≡ 0
      none_hold [] = refl
      none_hold (w ∷ ws) = omega (arith, none_hold ws)

      none_left : (a b : Bool) → b ≡ a && false || b
      none_left a b = ground arith

  -- A step that leaves the checkpoint, the file and the error alone, and what is recorded.
  quiet-IsExact :
      (b : Batch) (us : List Task)
      → IsExact b
      → ((v : Workload) → any (records_it v) us ≡ any (records_it v) b.tasks)
      → any is_failed us ≡ any is_failed b.tasks
      → total hold_size us ≤ total hold_size b.tasks
      → IsExact (record b { tasks = us })
  quiet-IsExact b us h same same_failed fewer = record {
    checkpoint = λ v. rw (same v) (h.checkpoint v);
    stored = h.stored;
    first_error = rw same_failed h.first_error;
    holders = omega (arith, h.holders);
    saving = λ off. omega (arith, h.saving off);
  }

  Step-IsExact : {b c : Batch} → Step opts b c → IsExact b → IsExact c
  Step-IsExact {b} (restarted w m) h =
      quiet-IsExact b _ h (λ v. Move-any_same (records_it v) m refl)
        (Move-any_same is_failed m refl) (omega (arith, Move-total hold_size m))
  Step-IsExact {b} (fails w e m) h = record {
    checkpoint = λ v. rw (Move-any_same (records_it v) m refl) (h.checkpoint v);
    stored = h.stored;
    first_error = rw (Move-any_new is_failed m refl) (or_first_some b.first_error e);
    holders = omega (arith, h.holders, Move-total hold_size m);
    saving = λ off. omega (arith, h.saving off, Move-total hold_size m);
  }
  Step-IsExact {b} (skips w off m) h = record {
    checkpoint = λ v. rw off (h.checkpoint v ∙ rw off refl);
    stored = h.stored;
    first_error = rw (Move-any_same is_failed m refl) h.first_error;
    holders = omega (arith, h.holders, Move-total hold_size m);
    saving = λ o. omega (arith, h.saving o, Move-total hold_size m);
  }
  Step-IsExact {b} (locks w on free m) h = record {
    checkpoint = λ v. rw (Move-any_same (records_it v) m refl) (h.checkpoint v);
    stored = h.stored;
    first_error = rw (Move-any_same is_failed m refl) h.first_error;
    holders = omega (arith, total-free b.tasks free, Move-total hold_size m);
    saving = λ off. absurd (ground arith);
  }
  Step-IsExact {b} (records w time m) h = record {
    checkpoint = λ v. ground (
      arith,
      is_done-marked opts b.checkpoint w v time,
      h.checkpoint v,
      Move-any_new (records_it v) m refl,
      holder_saves m,
    );
    stored = λ file v e done.
        rw (is_done-marked opts b.checkpoint w v time) (ground (arith, h.stored file v e done));
    first_error = rw (Move-any_same is_failed m refl) h.first_error;
    holders = omega (arith, h.holders, Move-total hold_size m);
    saving = λ off. omega (arith, h.saving off, Move-total hold_size m);
  }
    where
      holder_saves : {us : List Task} → Move w marks writes b.tasks us → saves_nothing opts ≡ false
      holder_saves n = elim (Bool-cases (saves_nothing opts)) [
        | inl off ↦ absurd (omega (arith, h.saving off, Move-size_le hold_size n))
        | inr on ↦ on
      ]
  Step-IsExact {b} (stores w m) h = record {
    checkpoint = λ v. rw (Move-any_same (records_it v) m refl) (h.checkpoint v);
    stored = λ file v e done. subst (λ f. is_done f v ≡ true) (sym (some_inj e)) done;
    first_error = rw (Move-any_same is_failed m refl) h.first_error;
    holders = omega (arith, h.holders, Move-total hold_size m);
    saving = λ off. omega (arith, h.saving off, Move-total hold_size m);
  }
  Step-IsExact {b} (loses w m) h =
      quiet-IsExact b _ h (λ v. Move-any_same (records_it v) m refl)
        (Move-any_same is_failed m refl) (omega (arith, Move-total hold_size m))

  Steps-IsExact : {b c : Batch} → Steps opts b c → IsExact b → IsExact c
  Steps-IsExact none_yet h = h
  Steps-IsExact (then steps step) h = Step-IsExact step (Steps-IsExact steps h)

-- At every moment of a batch, whichever way its goroutines interleave, the checkpoint has as done
-- what it had before and the workloads whose restart succeeded and that were recorded since, and
-- no others; its file has none that the checkpoint lacks; and the batch has an error exactly when
-- a restart failed.
pub batch-IsExact :
    (opts : Options) (cp : Checkpoint) (ws : List Workload) (b : Batch)
    → Steps opts (started cp ws) b
    → IsExact opts cp b
batch-IsExact opts cp ws b steps = Steps-IsExact opts cp steps (started-IsExact opts cp ws)
