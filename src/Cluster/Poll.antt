-- ===== src/Cluster/Poll.antt =====
-- wait.PollUntilContextCancel of k8s.io/apimachinery, which the program does not implement: what
-- its documentation promises, as an interface. PollUntilContextTimeout is the same under a context
-- with a timeout. The variables that a condition closes over are its state.
pub mod Rules
pub mod Bounded
use k8s_safed.Base.{◌≡◌, Bool, true, false, ◌∷◌}
use k8s_safed.Cluster.Objects.{Duration}
use k8s_safed.Cluster.Calls.{Context, Call}
use k8s_safed.Cluster.Env.{Env, Error, Result, ok, err}
use k8s_safed.Cluster.Exec.{World, Exec, Done}
use k8s_safed.Cluster.Exec.Keeps.{Keeps}

abbrev pub Check : Type 0 → Type 0
Check S = S → Exec (S × Bool)

-- A wait between two checks.
abbrev pub paused : Duration → World → World
paused d w = record w { calls = Call.pause d ∷ w.calls }

-- The runs of a poll: the condition is checked at once, and again after each interval, until it
-- holds, it fails, or the context ends.
pub data PollRun {S : Type 0} (d : Duration) (check : Check S)
    : S → World → Result Done × World → Type 0 where
  stop :
      {s : S} {w : World} {r : Result Done × World} (s' : S) (w' : World)
      → check s w ≡ (ok (s', true), w')
      → r ≡ (ok tt, w')
      → PollRun d check s w r
  fail :
      {s : S} {w : World} {r : Result Done × World} (e : Error) (w' : World)
      → check s w ≡ (err e, w')
      → r ≡ (err e, w')
      → PollRun d check s w r
  cancel :
      {s : S} {w : World} {r : Result Done × World} (s' : S) (w' : World) (e : Error)
      → check s w ≡ (ok (s', false), w')
      → r ≡ (err e, paused d w')
      → PollRun d check s w r
  next :
      {s : S} {w : World} {r : Result Done × World} (s' : S) (w' : World)
      → check s w ≡ (ok (s', false), w')
      → PollRun d check s' (paused d w') r
      → PollRun d check s w r

pub record Poller : Type 1 where
  pub poll : (S : Type 0) → Context → Duration → Check S → S → Exec Done
  pub poll_runs :
      (S : Type 0) (ctx : Context) (d : Duration) (check : Check S) (s : S) (w : World)
      → PollRun d check s w (poll S ctx d check s w)
