-- ===== src/Drain/Coordinator/Restarts.antt =====
-- The restarts of a workload by several drainers: one at a time, and none after a success.
use k8s_safed.Base.{
  ◌≡◌, ◌≢◌, ◌↔◌, refl, sym, ◌∙◌, ap, String, Bool, true, false, Option, none, some, List, [], ◌∷◌,
  ◌==◌, arith, eq_iff, if◌then◌else◌, Bool-cases, inl, inr,
}
use k8s_safed.Base.Maps.{lookup, delete, lookup-insert, lookup-delete}
use k8s_safed.Drain.Coordinator.{
  Stage, checking, restarting, returning, Moment, began, failed, succeeded, WorkloadCoordinator,
  is_done_by, Step, lock, cancelled, already_done, start, fail, succeed, return, Reachable, initial,
  next,
}

-- The restarts of one workload, as a log shows them.
pub data Progress : Type 0 where
  idle running finished broken : Progress

abbrev pub advance : Moment → Progress → Progress
advance began idle = running
advance failed running = idle
advance succeeded running = finished
advance m p = broken

-- Broken, if a restart began while another was running or after one had succeeded, or if one ended
-- that was not running.
abbrev pub progress : String → List (String × Moment) → Progress
progress key [] = idle
progress key ((k, m) ∷ log) = let p = progress key log in if k == key then advance m p else p

-- What the lock and the set say of the log.
abbrev expected : Option Stage → Bool → Progress
expected none false = idle
expected none true = finished
expected (some checking) false = idle
expected (some checking) true = finished
expected (some restarting) false = running
expected (some restarting) true = broken
expected (some returning) false = broken
expected (some returning) true = finished

-- The lock, the set and the log agree, and the log is not broken.
abbrev IsProper : Progress → Option Stage → Bool → Type 0
IsProper p o b = (p ≡ expected o b) × (p ≢ broken)

abbrev IsSound : WorkloadCoordinator → String → Type 0
IsSound c key = IsProper (progress key c.log) (lookup key c.locks) (is_done_by key c.done)

begin-IsProper :
    (p : Progress) (o : Option Stage) (b : Bool)
    → o ≡ some checking
    → b ≡ false
    → IsProper p o b
    → IsProper (advance began p) (some restarting) b
begin-IsProper p o b e f h = ground arith

end-IsProper :
    (p : Progress) (o : Option Stage) (b : Bool)
    → o ≡ some restarting
    → IsProper p o b
    → IsProper (advance failed p) none b × IsProper (advance succeeded p) (some returning) true
end-IsProper p o b e h = ground arith

checked-IsProper :
    (p : Progress) (o : Option Stage) (b : Bool)
    → IsProper p o b
    → (o ≡ none → IsProper p (some checking) b)
      × ((o ≡ some checking → IsProper p none b) × (o ≡ some returning → IsProper p none b))
checked-IsProper p o b h = (λ e. ground arith, (λ e. ground arith, λ e. ground arith))

done-finished :
    (p : Progress) (o : Option Stage) (b : Bool) → IsProper p o b → (b ≡ true) ↔ (p ≡ finished)
done-finished p o b h = (λ e. ground arith, λ e. ground arith)

same_key :
    {A : Type 0} (f : String → A) (key k : String) {a : A} → key == k ≡ true → f key ≡ a → f k ≡ a
same_key f key k same h = ap f (sym ((eq_iff key k).0 same)) ∙ h

module _ (c : WorkloadCoordinator) (k : String) (h : IsSound c k) where
  checks :
      (lookup k c.locks ≡ none → IsProper (progress k c.log) (some checking) (is_done_by k c.done))
      × ((lookup k c.locks ≡ some checking → IsProper (progress k c.log) none (is_done_by k c.done))
          × (lookup k c.locks ≡ some returning
              → IsProper (progress k c.log) none (is_done_by k c.done)))
  checks = checked-IsProper (progress k c.log) (lookup k c.locks) (is_done_by k c.done) h

  released :
      (key : String) (stage : Stage)
      → lookup key c.locks ≡ some stage
      → (lookup k c.locks ≡ some stage → IsProper (progress k c.log) none (is_done_by k c.done))
      → IsProper (progress k c.log) (lookup k (delete key c.locks)) (is_done_by k c.done)
  released key stage held f = rw (lookup-delete key k c.locks) (elim (Bool-cases (key == k)) [
    | inl same ↦ rw same (f (same_key (λ j. lookup j c.locks) key k same held))
    | inr other ↦ rw other h
  ])

  Step-IsSound : {c' : WorkloadCoordinator} → Step c c' → IsSound c' k
  Step-IsSound (lock key free) =
      rw (lookup-insert key k checking c.locks) (elim (Bool-cases (key == k)) [
        | inl same ↦ rw same (checks.0 (same_key (λ j. lookup j c.locks) key k same free))
        | inr other ↦ rw other h
      ])
  Step-IsSound (cancelled key held) = released key checking held checks.1.0
  Step-IsSound (already_done key held found) = released key checking held checks.1.0
  Step-IsSound (start key held new) =
      rw (lookup-insert key k restarting c.locks) (elim (Bool-cases (key == k)) [
        | inl same ↦ rw same (
            begin-IsProper _ (lookup k c.locks) _ (same_key (λ j. lookup j c.locks) key k same held)
              (same_key (λ j. is_done_by j c.done) key k same new) h)
        | inr other ↦ rw other h
      ])
  Step-IsSound (fail key held) = rw (lookup-delete key k c.locks) (elim (Bool-cases (key == k)) [
    | inl same ↦
        rw same
          (end-IsProper _ (lookup k c.locks) _ (same_key (λ j. lookup j c.locks) key k same held)
            h).0
    | inr other ↦ rw other h
  ])
  Step-IsSound (succeed key held) =
      rw (lookup-insert key k returning c.locks) (elim (Bool-cases (key == k)) [
        | inl same ↦
            rw same
              (end-IsProper _ (lookup k c.locks) _
                (same_key (λ j. lookup j c.locks) key k same held) h).1
        | inr other ↦ rw other h
      ])
  Step-IsSound (return key held) = released key returning held checks.1.1

Reachable-IsSound : {c : WorkloadCoordinator} → Reachable c → (k : String) → IsSound c k
unfolding lookup
Reachable-IsSound initial k = (refl, λ e. ground arith)
Reachable-IsSound (next {c} r step) k = Step-IsSound c k (Reachable-IsSound r k) step

-- However the calls of several drainers interleave, the restarts of a workload never overlap and
-- none begins after one has succeeded; and a workload is recorded as done exactly when a restart
-- of it has succeeded.
pub restarts_once :
    (c : WorkloadCoordinator)
    → Reachable c
    → (key : String)
    → (progress key c.log ≢ broken)
      × ((is_done_by key c.done ≡ true) ↔ (progress key c.log ≡ finished))
restarts_once c r key =
    let sound : IsSound c key = Reachable-IsSound r key in
    (sound.1, done-finished (progress key c.log) (lookup key c.locks) (is_done_by key c.done) sound)
