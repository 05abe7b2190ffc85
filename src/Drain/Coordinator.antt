-- ===== src/Drain/Coordinator.antt =====
-- pkg/drain/coordinator.go for several drainers at once: the steps of their calls of
-- `WorkloadCoordinator.Do`, in any interleaving. A step is one critical section, or one thing that
-- the caller's function does.
pub mod Restarts
use k8s_safed.Base.{◌≡◌, String, Bool, true, false, Option, none, some, List, [], ◌∷◌, ◌==◌, any}
use k8s_safed.Base.Maps.{Map, lookup, insert, delete}

-- What the call that holds the lock of a key is about to do: look into `done`, wait for its
-- function, or return.
pub data Stage : Type 0 where
  checking restarting returning : Stage

-- What happens to a workload: `fn` is called, and it returns an error or none.
pub data Moment : Type 0 where
  began failed succeeded : Moment

-- `locks` has the keys whose mutex is locked, `log` what happened, newest first.
pub record WorkloadCoordinator : Type 0 where
  pub locks : Map Stage
  pub done : List String
  pub log : List (String × Moment)

-- NewWorkloadCoordinator
abbrev pub new_workload_coordinator : WorkloadCoordinator
new_workload_coordinator = record { locks = []; done = []; log = [] }

-- `_, alreadyDone := c.done[key]`
abbrev pub is_done_by : String → List String → Bool
is_done_by key done = any (λ k. k == key) done

abbrev pub at_stage : String → Stage → WorkloadCoordinator → WorkloadCoordinator
at_stage key stage c = record c { locks = insert key stage c.locks }

abbrev pub unlocked : String → WorkloadCoordinator → WorkloadCoordinator
unlocked key c = record c { locks = delete key c.locks }

abbrev pub logged : String → Moment → WorkloadCoordinator → WorkloadCoordinator
logged key m c = record c { log = (key, m) ∷ c.log }

abbrev pub marked : String → WorkloadCoordinator → WorkloadCoordinator
marked key c = record c { done = key ∷ c.done }

pub data Step (c : WorkloadCoordinator) : WorkloadCoordinator → Type 0 where
  -- `lock.Lock()`, which waits while another call holds the lock
  lock : (key : String) → lookup key c.locks ≡ none → Step c (at_stage key checking c)
  -- `ctx.Err() != nil`
  cancelled : (key : String) → lookup key c.locks ≡ some checking → Step c (unlocked key c)
  already_done :
      (key : String)
      → lookup key c.locks ≡ some checking
      → is_done_by key c.done ≡ true
      → Step c (unlocked key c)
  -- `fn(ctx)` is called
  start :
      (key : String)
      → lookup key c.locks ≡ some checking
      → is_done_by key c.done ≡ false
      → Step c (at_stage key restarting (logged key began c))
  fail :
      (key : String)
      → lookup key c.locks ≡ some restarting
      → Step c (unlocked key (logged key failed c))
  -- `c.done[key] = struct{}{}`
  succeed :
      (key : String)
      → lookup key c.locks ≡ some restarting
      → Step c (at_stage key returning (marked key (logged key succeeded c)))
  return : (key : String) → lookup key c.locks ≡ some returning → Step c (unlocked key c)

pub data Reachable : WorkloadCoordinator → Type 0 where
  initial : Reachable new_workload_coordinator
  next : {c c' : WorkloadCoordinator} → Reachable c → Step c c' → Reachable c'
