-- ===== src/Drain/Runner/Remaining.antt =====
-- The loops over the workloads that remain, and the list before it was sorted.
use k8s_safed.Base.{
  ◌≡◌, refl, ℕ, zero, suc, inl, inr, false, List, [], ◌∷◌, length, arith, All, Bool-cases,
}
use k8s_safed.Base.Int.{pos, int_eq, int_ltb}
use k8s_safed.Cluster.Calls.{Context, History}
use k8s_safed.Cluster.Env.{Env, Error}
use k8s_safed.Cluster.Exec.{World}
use k8s_safed.Cluster.Exec.Meets.{Meets, Meets-pure, Meets-if, Meets-bind}
use k8s_safed.Cluster.Exec.Meets.More.{Meets-mono}
use k8s_safed.Cluster.Poll.{Poller}
use k8s_safed.Workload.{Workload}
use k8s_safed.Drain.Options.{Options}
use k8s_safed.Drain.Checkpoint.{Checkpoint}
use k8s_safed.Drain.Runner.Order.{insert_by_priority, sort_by_priority}
use k8s_safed.Drain.Runner.Finished.{AllFinished, run_sequential-Finishes, run_batches-Finishes}
use k8s_safed.Drain.Runner.{run_batches, run_all, batch_size, run_remaining}

module _ (env : Env) (poller : Poller) (opts : Options) (before : History)
    (wet : opts.dry_run ≡ false) where
  abbrev Finishes : List Workload → World → Type 0
  Finishes = AllFinished env opts before

  abbrev Failed : Error → World → Type 0
  Failed e w = Unit

  batches_of_any_size :
      (size : ℕ) (ctx : Context) (cp : Checkpoint) (vs : List Workload)
      → (size ≡ 0 → vs ≡ [])
      → Meets
          (Finishes [])
          (λ _. Finishes vs)
          Failed
          (run_batches env poller opts (length vs) ctx size cp vs)
  unfolding run_batches
  batches_of_any_size zero ctx cp [] some_size = Meets-pure cp (λ w h. h)
  batches_of_any_size zero ctx cp (v ∷ vs) some_size = absurd (ground (arith, some_size refl))
  batches_of_any_size (suc size) ctx cp vs some_size =
      Meets-mono (λ _ w h. h.1) (λ e w h. tt)
        (run_batches-Finishes env poller opts before wet (length vs) size [] ctx cp vs
          (omega arith))

  batch_size-zero : (vs : List Workload) → batch_size env poller opts vs ≡ 0 → vs ≡ []
  unfolding batch_size
  batch_size-zero vs h = ground arith

  pub run_all-Finishes :
      (ctx : Context) (cp : Checkpoint) (vs : List Workload)
      → Meets (Finishes []) (λ _. Finishes vs) Failed (run_all env poller opts ctx cp vs)
  unfolding run_all
  run_all-Finishes ctx cp vs =
      Meets-if (int_eq opts.max_concurrency (pos 1)) _ _
        (λ one.
          Meets-bind (λ _. Finishes vs) _ _
            (Meets-mono (λ _ w h. h.1) (λ e w h. tt)
              (run_sequential-Finishes env poller opts before wet [] ctx cp vs))
            (λ _. Meets-pure tt (λ w h. h)))
        (λ more.
          Meets-bind (λ _. Finishes vs) _ _ (batches_of_any_size _ ctx cp vs (batch_size-zero vs))
            (λ _. Meets-pure tt (λ w h. h)))

  pub run_remaining-Finishes :
      (ctx : Context) (cp : Checkpoint) (vs : List Workload)
      → Meets (Finishes []) (λ _. Finishes vs) Failed (run_remaining env poller opts ctx cp vs)
  unfolding run_remaining
  run_remaining-Finishes ctx cp [] = Meets-pure tt (λ w h. h)
  run_remaining-Finishes ctx cp (v ∷ vs) = run_all-Finishes ctx cp (v ∷ vs)

module _ (P : Workload → Type 0) where
  inserted : (w : Workload) (vs : List Workload) → All P (insert_by_priority w vs) → P w × All P vs
  unfolding insert_by_priority
  inserted w [] all = all
  inserted w (v ∷ vs) all = elim (Bool-cases (int_ltb v.priority w.priority)) [
    | inl lower ↦
        let later = (rw lower at all) in
        let both = inserted w vs later.1 in (both.0, (later.0, both.1))
    | inr other ↦ (rw other at all)
  ]

  pub unsorted : (ws : List Workload) → All P (sort_by_priority ws) → All P ws
  unfolding sort_by_priority
  unsorted [] h = tt
  unsorted (w ∷ ws) h =
      let both = inserted w (sort_by_priority ws) h in (both.0, unsorted ws both.1)
