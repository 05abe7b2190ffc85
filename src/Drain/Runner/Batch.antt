-- ===== src/Drain/Runner/Batch.antt =====
-- A batch of pkg/drain/workload_runner.go in any interleaving of its goroutines. A step is a
-- rolling restart that returns, or one part of `saveCP`, which holds the mutex `cpMu`.
pub mod Moves
pub mod Recorded
pub mod Ends
pub mod Agree
pub mod Schedule
use k8s_safed.Base.{
  ◌≡◌, String, Bool, true, false, Option, none, some, List, [], ◌∷◌, ◌||◌, ◌==◌, map, any,
}
use k8s_safed.Cluster.Objects.{Time}
use k8s_safed.Cluster.Env.{Error}
use k8s_safed.Workload.{Workload}
use k8s_safed.Drain.Options.{Options}
use k8s_safed.Drain.Checkpoint.{Checkpoint, mark_done_at}

-- Where a goroutine is: in its rolling restart, before `cpMu.Lock()`, before the change of the
-- checkpoint, before its file is written, or returned.
pub data Goroutine : Type 0 where
  restarts waits marks writes ended : Goroutine
  failed : Error → Goroutine

abbrev pub Task : Type 0
Task = Workload × Goroutine

-- `stored` is what the batch has written to the file, `first_error` the error of the errgroup.
pub record Batch : Type 0 where
  pub tasks : List Task
  pub checkpoint : Checkpoint
  pub stored : Option Checkpoint
  pub first_error : Option Error

-- `saveCP` does nothing.
abbrev pub saves_nothing : Options → Bool
saves_nothing opts = opts.checkpoint_path == "" || opts.dry_run

-- Whether a goroutine holds the mutex.
abbrev pub holds : Task → Bool
holds (w, marks) = true
holds (w, writes) = true
holds (w, g) = false

abbrev pub or_first : Option Error → Error → Option Error
or_first none e = some e
or_first (some first) e = some first

-- One task goes from one place to another.
pub data Move (w : Workload) (from to : Goroutine) : List Task → List Task → Type 0 where
  here : {ts : List Task} → Move w from to ((w, from) ∷ ts) ((w, to) ∷ ts)
  there : {t : Task} {ts us : List Task} → Move w from to ts us → Move w from to (t ∷ ts) (t ∷ us)

module _ (opts : Options) where
  -- The checkpoint that `saveCP` makes.
  abbrev pub marked : Checkpoint → Workload → Time → Checkpoint
  marked cp w time =
      mark_done_at (record cp { node_name = opts.node_name; context = opts.checkpoint_context }) w
        time

  pub data Step (b : Batch) : Batch → Type 0 where
    -- rollingRestart returns nil
    restarted :
        {us : List Task} (w : Workload)
        → Move w restarts waits b.tasks us
        → Step b (record b { tasks = us })
    -- rollingRestart returns an error, which the errgroup keeps if it is the first
    fails :
        {us : List Task} (w : Workload) (e : Error)
        → Move w restarts (failed e) b.tasks us
        → Step b (record b { tasks = us; first_error = or_first b.first_error e })
    skips :
        {us : List Task} (w : Workload)
        → saves_nothing opts ≡ true
        → Move w waits ended b.tasks us
        → Step b (record b { tasks = us })
    -- cpMu.Lock()
    locks :
        {us : List Task} (w : Workload)
        → saves_nothing opts ≡ false
        → any holds b.tasks ≡ false
        → Move w waits marks b.tasks us
        → Step b (record b { tasks = us })
    -- cp.MarkDoneAt
    records :
        {us : List Task} (w : Workload) (time : Time)
        → Move w marks writes b.tasks us
        → Step b (record b { tasks = us; checkpoint = marked b.checkpoint w time })
    -- cp.Save writes the file, and the mutex is unlocked
    stores :
        {us : List Task} (w : Workload)
        → Move w writes ended b.tasks us
        → Step b (record b { tasks = us; stored = some b.checkpoint })
    -- cp.Save fails, which is only printed
    loses :
        {us : List Task} (w : Workload)
        → Move w writes ended b.tasks us
        → Step b (record b { tasks = us })

  pub data Steps (b : Batch) : Batch → Type 0 where
    none_yet : Steps b b
    then : {c d : Batch} → Steps b c → Step c d → Steps b d

-- The goroutines of a batch, as `g.Go` starts them.
abbrev pub started : Checkpoint → List Workload → Batch
started cp ws = record {
  tasks = map (λ w. (w, restarts)) ws;
  checkpoint = cp;
  stored = none;
  first_error = none;
}
