-- ===== src/Cluster/Poll/Bounded.antt =====
-- A poll that gives up after a number of rounds: an implementation of the interface.
use k8s_safed.Base.{◌≡◌, refl, ℕ, zero, suc, Bool, true, false}
use k8s_safed.Cluster.Objects.{Duration}
use k8s_safed.Cluster.Env.{Result, ok, err, message}
use k8s_safed.Cluster.Exec.{World, Exec, Done}
use k8s_safed.Cluster.Poll.{Check, paused, PollRun, stop, fail, cancel, next, Poller}

module _ {S : Type 0} (d : Duration) where
  abbrev after_check : Result (S × Bool) × World → (S → Exec Done) → Result Done × World
  after_check (ok (s, true), w) again = (ok tt, w)
  after_check (ok (s, false), w) again = again s (paused d w)
  after_check (err e, w) again = (err e, w)

  abbrev give_up : S → Exec Done
  give_up s w = (err (message "context deadline exceeded"), w)

  abbrev poll_rounds : ℕ → Check S → S → Exec Done
  poll_rounds zero check s w = after_check (check s w) give_up
  poll_rounds (suc n) check s w = after_check (check s w) (poll_rounds n check)

  module _ (check : Check S) (s : S) (w : World) where
    give_up-runs :
        (o : Result (S × Bool) × World)
        → check s w ≡ o
        → PollRun d check s w (after_check o give_up)
    give_up-runs (ok (s', true), w') e = stop s' w' e refl
    give_up-runs (ok (s', false), w') e = cancel s' w' (message "context deadline exceeded") e refl
    give_up-runs (err x, w') e = fail x w' e refl

    again-runs :
        (again : S → Exec Done)
        → ((s' : S) (w' : World) → PollRun d check s' w' (again s' w'))
        → (o : Result (S × Bool) × World) → check s w ≡ o
        → PollRun d check s w (after_check o again)
    again-runs again h (ok (s', true), w') e = stop s' w' e refl
    again-runs again h (ok (s', false), w') e = next s' w' e (h s' (paused d w'))
    again-runs again h (err x, w') e = fail x w' e refl

  pub poll_rounds-runs :
      (n : ℕ) (check : Check S) (s : S) (w : World) → PollRun d check s w (poll_rounds n check s w)
  poll_rounds-runs zero check s w = give_up-runs check s w (check s w) refl
  poll_rounds-runs (suc n) check s w =
      again-runs check s w (poll_rounds n check) (poll_rounds-runs n check) (check s w) refl

abbrev pub bounded_poller : ℕ → Poller
bounded_poller n = record {
  poll = λ S ctx d check s. poll_rounds d n check s;
  poll_runs = λ S ctx d check s w. poll_rounds-runs d n check s w;
}
