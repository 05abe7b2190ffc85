-- ===== src/Drain/Runner/Batch/Moves.antt =====
-- What a move of one task does to tests and sums over all tasks.
use k8s_safed.Base.{◌≡◌, refl, ℕ, ◌+◌, ◌≤◌, Bool, false, List, [], ◌∷◌, ◌||◌, any, arith}
use k8s_safed.Workload.{Workload}
use k8s_safed.Drain.Runner.Batch.{
  Goroutine, restarts, waits, marks, writes, ended, failed, Task, holds, Move, here, there,
}

module _ (test : Task → Bool) {w : Workload} {from to : Goroutine} where
  -- Where the task did not pass the test before.
  pub Move-any_new :
      {ts us : List Task}
      → Move w from to ts us
      → test (w, from) ≡ false
      → any test us ≡ test (w, to) || any test ts
  Move-any_new here h = ground arith
  Move-any_new (there {t} m) h = let rest = Move-any_new m h in ground (arith, rest)

  -- Where the move changes nothing in the test.
  pub Move-any_same :
      {ts us : List Task}
      → Move w from to ts us
      → test (w, from) ≡ test (w, to)
      → any test us ≡ any test ts
  Move-any_same here h = ground arith
  Move-any_same (there {t} m) h = let rest = Move-any_same m h in ground (arith, rest)

module _ (size : Goroutine → ℕ) where
  abbrev pub total : List Task → ℕ
  total [] = 0
  total ((w, g) ∷ ts) = size g + total ts

  pub Move-total :
      {w : Workload} {from to : Goroutine} {ts us : List Task}
      → Move w from to ts us
      → total us + size from ≡ total ts + size to
  Move-total here = omega arith
  Move-total (there m) = omega (arith, Move-total m)

  pub Move-size_le :
      {w : Workload} {from to : Goroutine} {ts us : List Task}
      → Move w from to ts us
      → size from ≤ total ts
  Move-size_le here = omega arith
  Move-size_le (there m) = omega (arith, Move-size_le m)

-- How many tasks hold the mutex.
abbrev pub hold_size : Goroutine → ℕ
hold_size marks = 1
hold_size writes = 1
hold_size _ = 0

pub total-free : (ts : List Task) → any holds ts ≡ false → total hold_size ts ≡ 0
total-free [] h = refl
total-free ((w, restarts) ∷ ts) h = omega (arith, total-free ts h)
total-free ((w, waits) ∷ ts) h = omega (arith, total-free ts h)
total-free ((w, marks) ∷ ts) h = absurd (ground arith)
total-free ((w, writes) ∷ ts) h = absurd (ground arith)
total-free ((w, ended) ∷ ts) h = omega (arith, total-free ts h)
total-free ((w, failed e) ∷ ts) h = omega (arith, total-free ts h)
