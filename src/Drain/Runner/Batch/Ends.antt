-- ===== src/Drain/Runner/Batch/Ends.antt =====
-- Every run of a batch ends: no goroutine waits for ever for the mutex.
use k8s_safed.Base.{
  ◌≡◌, refl, sym, subst, ◌⊎◌, inl, inr, ℕ, suc, ◌+◌, ◌*◌, ◌≤◌, Bool, true, false, List, [], ◌∷◌,
  any, map, length, Bool-cases, arith,
}
use k8s_safed.Workload.{Workload}
use k8s_safed.Drain.Options.{Options}
use k8s_safed.Drain.Checkpoint.{Checkpoint}
use k8s_safed.Drain.Runner.Batch.{
  Goroutine, restarts, waits, marks, writes, ended, failed, Task, Batch, saves_nothing, holds, Move,
  here, there, Step, restarted, fails, skips, locks, records, stores, loses, Steps, none_yet, then,
  started,
}
use k8s_safed.Drain.Runner.Batch.Moves.{total, Move-total}

-- The steps that a goroutine may still take.
abbrev weight : Goroutine → ℕ
weight restarts = 4
weight waits = 3
weight marks = 2
weight writes = 1
weight _ = 0

abbrev pub is_running : Task → Bool
is_running (w, ended) = false
is_running (w, failed e) = false
is_running (w, _) = true

abbrev is_restarting : Goroutine → Bool
is_restarting restarts = true
is_restarting _ = false

abbrev is_waiting : Goroutine → Bool
is_waiting waits = true
is_waiting _ = false

abbrev is_marking : Goroutine → Bool
is_marking marks = true
is_marking _ = false

abbrev is_writing : Goroutine → Bool
is_writing writes = true
is_writing _ = false

-- A move of some task.
abbrev SomeMove : Goroutine → Goroutine → List Task → Type 0
SomeMove from to ts = (w : Workload) × ((us : List Task) × Move w from to ts us)

some_move :
    (from to : Goroutine) (test : Goroutine → Bool)
    → ((g : Goroutine) → test g ≡ true → g ≡ from)
    → (ts : List Task) → any (λ t. test t.1) ts ≡ true
    → SomeMove from to ts
some_move from to test only [] h = absurd (ground arith)
some_move from to test only ((w, g) ∷ ts) h = elim (Bool-cases (test g)) [
  | inl yes_here ↦ (
    w,
    (
      (w, to) ∷ ts,
      subst (λ k. Move w from to ((w, k) ∷ ts) ((w, to) ∷ ts)) (sym (only g yes_here)) here,
    ),
  )
  | inr later ↦
      let (v, (us, m)) = some_move from to test only ts (ground arith) in
      (v, ((w, g) ∷ us, there m))
]

any-holds :
    (ts : List Task)
    → any (λ t. is_marking t.1) ts ≡ false
    → any (λ t. is_writing t.1) ts ≡ false
    → any holds ts ≡ false
any-holds [] m w = refl
any-holds ((v, g) ∷ ts) m w = ground (arith, any-holds ts)

any-is_running :
    (ts : List Task)
    → any (λ t. is_restarting t.1) ts ≡ false
    → any (λ t. is_waiting t.1) ts ≡ false
    → any holds ts ≡ false
    → any is_running ts ≡ false
any-is_running [] r a h = refl
any-is_running ((v, g) ∷ ts) r a h = ground (arith, any-is_running ts)

module _ (opts : Options) where
  pub steps_taken : {b c : Batch} → Steps opts b c → ℕ
  steps_taken none_yet = 0
  steps_taken (then run step) = suc (steps_taken run)

  Step-weight : {b c : Batch} → Step opts b c → suc (total weight c.tasks) ≤ total weight b.tasks
  Step-weight (restarted w m) = omega (arith, Move-total weight m)
  Step-weight (fails w e m) = omega (arith, Move-total weight m)
  Step-weight (skips w off m) = omega (arith, Move-total weight m)
  Step-weight (locks w on free m) = omega (arith, Move-total weight m)
  Step-weight (records w time m) = omega (arith, Move-total weight m)
  Step-weight (stores w m) = omega (arith, Move-total weight m)
  Step-weight (loses w m) = omega (arith, Move-total weight m)

  steps_taken-le :
      {b c : Batch} (run : Steps opts b c)
      → steps_taken run + total weight c.tasks ≤ total weight b.tasks
  unfolding steps_taken
  steps_taken-le none_yet = omega arith
  steps_taken-le (then run step) = omega (arith, steps_taken-le run, Step-weight step)

  abbrev pub CanStep : Batch → Type 0
  CanStep b = (c : Batch) × Step opts b c

  waiting-CanStep :
      (b : Batch)
      → any holds b.tasks ≡ false
      → SomeMove waits ended b.tasks
      → SomeMove waits marks b.tasks
      → CanStep b
  waiting-CanStep b free (v, (us, m)) (w, (vs, n)) = elim (Bool-cases (saves_nothing opts)) [
    | inl off ↦ (record b { tasks = us }, skips v off m)
    | inr on ↦ (record b { tasks = vs }, locks w on free n)
  ]

  can_step : (b : Batch) → (any is_running b.tasks ≡ false) ⊎ CanStep b
  can_step b = elim (Bool-cases (any (λ t. is_restarting t.1) b.tasks)) [
    | inl yes_r ↦
        let (w, (us, m)) =
          some_move restarts waits is_restarting (λ g e. ground arith) b.tasks yes_r in
        inr (record b { tasks = us }, restarted w m)
    | inr no_r ↦ elim (Bool-cases (any (λ t. is_marking t.1) b.tasks)) [
      | inl yes_m ↦
          let (w, (us, m)) =
            some_move marks writes is_marking (λ g e. ground arith) b.tasks yes_m in
          inr (_, records w 0 m)
      | inr no_m ↦ elim (Bool-cases (any (λ t. is_writing t.1) b.tasks)) [
        | inl yes_w ↦
            let (w, (us, m)) =
              some_move writes ended is_writing (λ g e. ground arith) b.tasks yes_w in
            inr (record b { tasks = us }, loses w m)
        | inr no_w ↦ elim (Bool-cases (any (λ t. is_waiting t.1) b.tasks)) [
          | inl yes_a ↦ inr (
              waiting-CanStep b (any-holds b.tasks no_m no_w)
                (some_move waits ended is_waiting (λ g e. ground arith) b.tasks yes_a)
                (some_move waits marks is_waiting (λ g e. ground arith) b.tasks yes_a))
          | inr no_a ↦ inl (any-is_running b.tasks no_r no_a (any-holds b.tasks no_m no_w))
        ]
      ]
    ]
  ]

total-started : (ws : List Workload) → total weight (map (λ w. (w, restarts)) ws) ≡ 4 * length ws
total-started [] = refl
total-started (w ∷ ws) = omega (arith, total-started ws)

-- A batch never deadlocks and always ends: in any interleaving, a step is possible until every
-- goroutine has returned, and there are at most four steps for each workload.
pub batch_ends :
    (opts : Options) (cp : Checkpoint) (ws : List Workload) (b : Batch)
    (run : Steps opts (started cp ws) b)
    → (steps_taken opts run ≤ 4 * length ws) × ((any is_running b.tasks ≡ false) ⊎ CanStep opts b)
batch_ends opts cp ws b run =
    (omega (arith, steps_taken-le opts run, total-started ws), can_step opts b)
