-- ===== src/Drain/Runner/Batch/Agree.antt =====
-- The workloads that a batch records, in whatever order: a set.
use mathlib.Core.Quot
use mathlib.Core.Quot.{Quot, Quot-set}
use k8s_safed.Base.{
  ◌≡◌, refl, sym, ap, ◌∙◌, false, none, List, [], ◌∷◌, ◌||◌, ◌==◌, map, any, is_some, arith,
}
use k8s_safed.Base.Maps.{get_flag-insert}
use k8s_safed.Workload.{Workload, workload_key}
use k8s_safed.Drain.Options.{Options}
use k8s_safed.Drain.Checkpoint.{Checkpoint, is_done, mark_done_at}
use k8s_safed.Drain.Runner.Batch.{
  Goroutine, restarts, waits, marks, writes, ended, failed, Task, Batch, saves_nothing, Move, here,
  there, Step, restarted, fails, skips, locks, records, stores, loses, Steps, none_yet, then,
  started,
}
use k8s_safed.Drain.Runner.Batch.Recorded.{is_failed, records_it, IsExact, batch-IsExact}
use k8s_safed.Drain.Runner.Batch.Ends.{is_running}

abbrev pub SameDone : Checkpoint → Checkpoint → Type 0
SameDone cp cp' = (v : Workload) → is_done cp v ≡ is_done cp' v

-- Checkpoints as far as they answer IsDone.
abbrev pub DoneSet : Type 0
DoneSet = Quot SameDone

abbrev pub done_set : Checkpoint → DoneSet
done_set = Quot.mk

is_done-mark_done_at :
    (cp : Checkpoint) (w v : Workload)
    → is_done (mark_done_at cp w 0) v ≡ workload_key w == workload_key v || is_done cp v
unfolding is_done mark_done_at
is_done-mark_done_at cp w v = get_flag-insert (workload_key w) (workload_key v) cp.completed

-- A workload more. The time does not matter.
pub add : Workload → DoneSet → DoneSet
add w =
    Quot.lift Quot-set (λ cp. done_set (mark_done_at cp w 0))
      (λ cp cp' h. Quot.sound (λ v.
        is_done-mark_done_at cp w v
        ∙ ap (λ b. workload_key w == workload_key v || b) (h v)
        ∙ sym (is_done-mark_done_at cp' w v)))

pub add_all : List Workload → DoneSet → DoneSet
add_all [] s = s
add_all (w ∷ ws) s = add w (add_all ws s)

-- The order of two workloads does not matter.
pub add_comm : (w v : Workload) (s : DoneSet) → add w (add v s) ≡ add v (add w s)
unfolding add
add_comm w v =
    Quot.ind (λ s. Quot-set _ _)
      (λ cp. Quot.sound (λ u. ground (
        arith,
        is_done-mark_done_at (mark_done_at cp v 0) w u,
        is_done-mark_done_at cp v u,
        is_done-mark_done_at (mark_done_at cp w 0) v u,
        is_done-mark_done_at cp w u,
      )))

mark_all : List Workload → Checkpoint → Checkpoint
mark_all [] cp = cp
mark_all (w ∷ ws) cp = mark_done_at (mark_all ws cp) w 0

add_all-mark_all :
    (ws : List Workload) (cp : Checkpoint) → add_all ws (done_set cp) ≡ done_set (mark_all ws cp)
unfolding add_all mark_all add
add_all-mark_all [] cp = refl
add_all-mark_all (w ∷ ws) cp = ap (add w) (add_all-mark_all ws cp)

is_done-mark_all :
    (ws : List Workload) (cp : Checkpoint) (v : Workload)
    → is_done (mark_all ws cp) v ≡ any (λ w. workload_key w == workload_key v) ws || is_done cp v
unfolding mark_all
is_done-mark_all [] cp v = refl
is_done-mark_all (w ∷ ws) cp v =
    ground (arith, is_done-mark_done_at (mark_all ws cp) w v, is_done-mark_all ws cp v)

abbrev workloads_of : List Task → List Workload
workloads_of = map (λ t. t.0)

Move-workloads :
    {w : Workload} {from to : Goroutine} {ts us : List Task}
    → Move w from to ts us
    → workloads_of us ≡ workloads_of ts
Move-workloads here = refl
Move-workloads (there {t} m) = ap (λ l. t.0 ∷ l) (Move-workloads m)

module _ (opts : Options) where
  Step-workloads : {b c : Batch} → Step opts b c → workloads_of c.tasks ≡ workloads_of b.tasks
  Step-workloads (restarted w m) = Move-workloads m
  Step-workloads (fails w e m) = Move-workloads m
  Step-workloads (skips w off m) = Move-workloads m
  Step-workloads (locks w on free m) = Move-workloads m
  Step-workloads (records w time m) = Move-workloads m
  Step-workloads (stores w m) = Move-workloads m
  Step-workloads (loses w m) = Move-workloads m

  Steps-workloads : {b c : Batch} → Steps opts b c → workloads_of c.tasks ≡ workloads_of b.tasks
  Steps-workloads none_yet = refl
  Steps-workloads (then run step) = Step-workloads step ∙ Steps-workloads run

workloads-started : (ws : List Workload) → workloads_of (map (λ w. (w, restarts)) ws) ≡ ws
workloads-started [] = refl
workloads-started (w ∷ ws) = ap (λ l. w ∷ l) (workloads-started ws)

-- When every task has ended well, all are recorded.
all_recorded :
    (v : Workload) (ts : List Task)
    → any is_running ts ≡ false
    → any is_failed ts ≡ false
    → any (records_it v) ts ≡ any (λ w. workload_key w == workload_key v) (workloads_of ts)
all_recorded v [] r f = refl
all_recorded v ((w, restarts) ∷ ts) r f = absurd (ground arith)
all_recorded v ((w, waits) ∷ ts) r f = absurd (ground arith)
all_recorded v ((w, marks) ∷ ts) r f = absurd (ground arith)
all_recorded v ((w, writes) ∷ ts) r f = absurd (ground arith)
all_recorded v ((w, ended) ∷ ts) r f =
    ap (λ b. workload_key w == workload_key v || b) (all_recorded v ts r f)
all_recorded v ((w, failed e) ∷ ts) r f = absurd (ground arith)

-- With checkpoints kept, a batch whose goroutines have all returned without an error has recorded
-- the set of its workloads, added to what was done before: in every interleaving the same.
pub batch_adds_all :
    (opts : Options) (cp : Checkpoint) (ws : List Workload) (b : Batch)
    → saves_nothing opts ≡ false
    → Steps opts (started cp ws) b
    → any is_running b.tasks ≡ false
    → b.first_error ≡ none
    → done_set b.checkpoint ≡ add_all ws (done_set cp)
batch_adds_all opts cp ws b on run over fine =
    let exact : IsExact opts cp b = batch-IsExact opts cp ws b run in
    let unfailed : any is_failed b.tasks ≡ false = sym exact.first_error ∙ ap is_some fine in
    let same : workloads_of b.tasks ≡ ws = Steps-workloads opts run ∙ workloads-started ws in
    Quot.sound (λ v.
      exact.checkpoint v
      ∙ rw (on, all_recorded v b.tasks over unfailed, same) (sym (is_done-mark_all ws cp v)))
    ∙ sym (add_all-mark_all ws cp)
