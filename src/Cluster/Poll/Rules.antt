-- ===== src/Cluster/Poll/Rules.antt =====
-- The rule for polls: an invariant of the checks gives what a poll promises.
use k8s_safed.Base.{subst, sym, Bool, true, false}
use k8s_safed.Cluster.Objects.{Duration}
use k8s_safed.Cluster.Calls.{Context}
use k8s_safed.Cluster.Env.{Error, Result, ok, err}
use k8s_safed.Cluster.Exec.{World, Done}
use k8s_safed.Cluster.Exec.Keeps.{Keeps}
use k8s_safed.Cluster.Exec.Meets.{Post, Meets}
use k8s_safed.Cluster.Poll.{Check, paused, PollRun, stop, fail, cancel, next, Poller}

module _ {S : Type 0} where
  -- What a check owes: the goal where it ends the poll, the invariant where it does not.
  abbrev pub Checked :
      (S → World → Type 0)
      → (World → Type 0)
      → (Error → World → Type 0)
      → Result (S × Bool) × World
      → Type 0
  Checked I Q E (ok (s, true), w) = Q w
  Checked I Q E (ok (s, false), w) = I s w
  Checked I Q E (err e, w) = E e w

module _ {S : Type 0} (d : Duration) (check : Check S) (I : S → World → Type 0) (Q : World → Type 0)
    (E : Error → World → Type 0) (checked : (s : S) (w : World) → I s w → Checked I Q E (check s w))
    (waits : (s : S) (w : World) → I s w → I s (paused d w))
    (ends : (s : S) (w : World) (e : Error) → I s w → E e (paused d w)) where
  PollRun-Post :
      {s : S} {w : World} {r : Result Done × World}
      → PollRun d check s w r
      → I s w
      → Post (λ _. Q) E r
  PollRun-Post (stop {s} {w} s' w' c e) h =
      subst (Post (λ _. Q) E) (sym e) (subst (Checked I Q E) c (checked s w h))
  PollRun-Post (fail {s} {w} x w' c e) h =
      subst (Post (λ _. Q) E) (sym e) (subst (Checked I Q E) c (checked s w h))
  PollRun-Post (cancel {s} {w} s' w' x c e) h =
      subst (Post (λ _. Q) E) (sym e) (ends s' w' x (subst (Checked I Q E) c (checked s w h)))
  PollRun-Post (next {s} {w} s' w' c rest) h =
      PollRun-Post rest (waits s' w' (subst (Checked I Q E) c (checked s w h)))

  pub Meets-poll :
      (p : Poller) (ctx : Context) (s : S) → Meets (I s) (λ _. Q) E (p.poll S ctx d check s)
  Meets-poll p ctx s = record { at = λ w h. PollRun-Post (p.poll_runs S ctx d check s w) h }

Post-same : (P : World → Type 0) (r : Result Done) (w : World) → Post (λ _. P) (λ _. P) (r, w) → P w
Post-same P (ok a) w h = h
Post-same P (err e) w h = h

module _ {S : Type 0} where
  Checked-same :
      (P : World → Type 0) (r : Result (S × Bool)) (w : World)
      → P w
      → Checked (λ _. P) P (λ _. P) (r, w)
  Checked-same P (ok (s, true)) w h = h
  Checked-same P (ok (s, false)) w h = h
  Checked-same P (err e) w h = h

  -- A poll keeps what its checks and its waits keep.
  pub Keeps-poll :
      {P : World → Type 0} (p : Poller) (ctx : Context) (d : Duration) (check : Check S) (s : S)
      → ((w : World) → P w → P (paused d w))
      → ((s : S) → Keeps P (check s))
      → Keeps P (p.poll S ctx d check s)
  Keeps-poll {P} p ctx d check s waits k = record {
    at = λ w h. Post-same P (p.poll S ctx d check s w).0 (p.poll S ctx d check s w).1 (
        (Meets-poll d check (λ _. P) P (λ _. P)
            (λ s w h. Checked-same P (check s w).0 (check s w).1 ((k s).at w h))
            (λ s w h. waits w h) (λ s w e h. waits w h) p ctx s).at
          w h);
  }
