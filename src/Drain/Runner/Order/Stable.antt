-- ===== src/Drain/Runner/Order/Stable.antt =====
-- The order of the restarts: by priority, and within a priority as before.
use mathlib.Core.List.{Perm}
use mathlib.Core.List.Perm
use k8s_safed.Base.{
  ◌≡◌, refl, ◌∙◌, ap, List, [], ◌∷◌, All, All-mono, keep_if, arith, Bool-cases, inl, inr,
  if◌then◌else◌,
}
use k8s_safed.Base.Int.{ℤ, ◌≤ℤ◌, int_ltb, int_eq}
use k8s_safed.Workload.{Workload}
use k8s_safed.Drain.Runner.Order.{insert_by_priority, sort_by_priority}

-- No later workload has a lower priority.
abbrev pub IsOrdered : List Workload → Type 0
IsOrdered [] = Unit
IsOrdered (w ∷ ws) = All (λ v. w.priority ≤ℤ v.priority) ws × IsOrdered ws

abbrev pub at_priority : ℤ → List Workload → List Workload
at_priority p ws = keep_if (λ w. int_eq w.priority p) ws

insert-All :
    (P : Workload → Type 0) (w : Workload) (ws : List Workload)
    → P w
    → All P ws
    → All P (insert_by_priority w ws)
unfolding insert_by_priority
insert-All P w [] p h = (p, tt)
insert-All P w (v ∷ vs) p h = elim (Bool-cases (int_ltb v.priority w.priority)) [
  | inl lower ↦ rw (lower, insert_by_priority) (h.0, insert-All P w vs p h.1)
  | inr other ↦ rw (other, insert_by_priority) (p, h)
]

insert-IsOrdered :
    (w : Workload) (ws : List Workload) → IsOrdered ws → IsOrdered (insert_by_priority w ws)
unfolding insert_by_priority
insert-IsOrdered w [] h = (tt, tt)
insert-IsOrdered w (v ∷ vs) h = elim (Bool-cases (int_ltb v.priority w.priority)) [
  | inl lower ↦
      rw (lower, insert_by_priority)
        (insert-All _ w vs (ground arith) h.0, insert-IsOrdered w vs h.1)
  | inr other ↦
      let first : w.priority ≤ℤ v.priority = ground arith in
      rw (other, insert_by_priority) ((first, All-mono _ _ vs (λ u l. omega arith) h.0), h)
]

insert-Perm : (w : Workload) (ws : List Workload) → Perm (insert_by_priority w ws) (w ∷ ws)
unfolding insert_by_priority
insert-Perm w [] = Perm.refl _
insert-Perm w (v ∷ vs) = elim (Bool-cases (int_ltb v.priority w.priority)) [
  | inl lower ↦
      rw (lower, insert_by_priority) (Perm.trans (Perm.cons v (insert-Perm w vs)) (Perm.swap _ _ _))
  | inr other ↦ rw (other, insert_by_priority) (Perm.refl _)
]

at_priority-insert :
    (p : ℤ) (w : Workload) (ws : List Workload)
    → at_priority p (insert_by_priority w ws) ≡ at_priority p (w ∷ ws)
unfolding insert_by_priority
at_priority-insert p w [] = refl
at_priority-insert p w (v ∷ vs) = ground (arith, at_priority-insert p w vs)

-- `sort_by_priority` returns the same workloads, by increasing priority, and those of the same
-- priority in the order in which they came.
pub sort_by_priority_stable :
    (ws : List Workload)
    → Perm (sort_by_priority ws) ws
      × (IsOrdered (sort_by_priority ws)
          × ((p : ℤ) → at_priority p (sort_by_priority ws) ≡ at_priority p ws))
unfolding sort_by_priority
sort_by_priority_stable [] = (Perm.refl _, (tt, λ p. refl))
sort_by_priority_stable (w ∷ ws) =
    let (same, (ordered, stable)) = sort_by_priority_stable ws in
    (
      Perm.trans (insert-Perm w (sort_by_priority ws)) (Perm.cons w same),
      (
        insert-IsOrdered w (sort_by_priority ws) ordered,
        λ p.
            at_priority-insert p w (sort_by_priority ws)
            ∙ ap (λ vs. if int_eq w.priority p then w ∷ vs else vs) (stable p),
      ),
    )
