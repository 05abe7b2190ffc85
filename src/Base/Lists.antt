-- ===== src/Base/Lists.antt =====
-- Lists measured by native numbers, under the library's names, and loops that filter.
use Prim.Native.Nat.{ℕ, zero, suc, ◌+◌, ◌≤◌}
use mathlib.Core.Path.{◌≡◌, refl, subst}
use mathlib.Core.Logic.{◌⊎◌, inl, inr}
use mathlib.Core.Bool.{Bool, true, false, ◌||◌}
use mathlib.Core.List.{List, [], ◌∷◌, ◌++◌}
use native.Mathlib.Omega.{arith}
use k8s_safed.Base.Tests.{if◌then◌else◌, Bool-cases}

module _ {ℓ} {A : Type ℓ} where
  abbrev pub length : List A → ℕ
  length [] = 0
  length (x ∷ xs) = suc (length xs)

  abbrev pub take : ℕ → List A → List A
  take zero xs = []
  take (suc n) [] = []
  take (suc n) (x ∷ xs) = x ∷ take n xs

  abbrev pub drop : ℕ → List A → List A
  drop zero xs = xs
  drop (suc n) [] = []
  drop (suc n) (x ∷ xs) = drop n xs

  -- `for x in xs { if !keep(x) { continue }; out = append(out, x) }`
  abbrev pub keep_if : (A → Bool) → List A → List A
  keep_if keep [] = []
  keep_if keep (x ∷ xs) = if keep x then x ∷ keep_if keep xs else keep_if keep xs

  -- `for x in xs { if test(x) { return true } }; return false`
  abbrev pub any : (A → Bool) → List A → Bool
  any test [] = false
  any test (x ∷ xs) = test x || any test xs

  -- Every item has the property.
  abbrev pub All {κ} : (A → Type κ) → List A → Type κ
  All P [] = Unit
  All P (x ∷ xs) = P x × All P xs

  pub length-append : (xs ys : List A) → length (xs ++ ys) ≡ length xs + length ys
  length-append [] ys = omega arith
  length-append (x ∷ xs) ys = omega (arith, length-append xs ys)

  pub All-append {κ} :
      (Q : A → Type κ) (front back : List A) → All Q front → All Q back → All Q (front ++ back)
  All-append Q [] back none_here later = later
  All-append Q (first ∷ front) back (here, rest) later = (here, All-append Q front back rest later)

  pub All-front {κ} : (Q : A → Type κ) (front back : List A) → All Q (front ++ back) → All Q front
  All-front Q [] back h = tt
  All-front Q (x ∷ front) back h = (h.0, All-front Q front back h.1)

  pub All-back {κ} : (Q : A → Type κ) (front back : List A) → All Q (front ++ back) → All Q back
  All-back Q [] back h = h
  All-back Q (x ∷ front) back h = All-back Q front back h.1

  pub All-mono {κ μ} :
      (P : A → Type κ) (Q : A → Type μ) (xs : List A) → ((x : A) → P x → Q x) → All P xs → All Q xs
  All-mono P Q [] f h = tt
  All-mono P Q (x ∷ xs) f h = (f x h.0, All-mono P Q xs f h.1)

  pub All-every {κ} : (P : A → Type κ) → ((x : A) → P x) → (xs : List A) → All P xs
  All-every P f [] = tt
  All-every P f (x ∷ xs) = (f x, All-every P f xs)

  pub All-take {κ} : (P : A → Type κ) (n : ℕ) (xs : List A) → All P xs → All P (take n xs)
  All-take P zero xs h = tt
  All-take P (suc n) [] h = tt
  All-take P (suc n) (x ∷ xs) h = (h.0, All-take P n xs h.1)

  pub All-drop {κ} : (P : A → Type κ) (n : ℕ) (xs : List A) → All P xs → All P (drop n xs)
  All-drop P zero xs h = h
  All-drop P (suc n) [] h = tt
  All-drop P (suc n) (x ∷ xs) h = All-drop P n xs h.1

  pub All-take-drop {κ} :
      (P : A → Type κ) (n : ℕ) (xs : List A) → All P (take n xs) → All P (drop n xs) → All P xs
  All-take-drop P zero xs front back = back
  All-take-drop P (suc n) [] front back = tt
  All-take-drop P (suc n) (x ∷ xs) front back = (front.0, All-take-drop P n xs front.1 back)

  pub length-drop-le : (n : ℕ) (xs : List A) → length (drop n xs) ≤ length xs
  length-drop-le zero xs = omega arith
  length-drop-le (suc n) [] = omega arith
  length-drop-le (suc n) (x ∷ xs) = omega (arith, length-drop-le n xs)

  pub All-keep_if : (keep : A → Bool) (xs : List A) → All (λ x. keep x ≡ true) (keep_if keep xs)
  All-keep_if keep [] = tt
  All-keep_if keep (x ∷ xs) = ground (arith, All-keep_if keep xs)

  pub length-keep_if-le : (keep : A → Bool) (xs : List A) → length (keep_if keep xs) ≤ length xs
  length-keep_if-le keep [] = omega arith
  length-keep_if-le keep (x ∷ xs) = ground (arith, length-keep_if-le keep xs)

module _ {A : Type 0} where
  -- Some item has the property.
  abbrev pub Some : (A → Type 0) → List A → Type 0
  Some P [] = ⊥
  Some P (x ∷ xs) = P x ⊎ Some P xs

  abbrev pub Listed : A → List A → Type 0
  Listed a xs = Some (λ x. x ≡ a) xs

  All-Listed_later :
      (x : A) (xs ys : List A) → All (λ y. Listed y xs) ys → All (λ y. Listed y (x ∷ xs)) ys
  All-Listed_later x xs ys h = All-mono _ _ ys (λ y l. inr l) h

  pub All-Listed : (xs : List A) → All (λ x. Listed x xs) xs
  All-Listed [] = tt
  All-Listed (x ∷ xs) = (inl refl, All-Listed_later x xs xs (All-Listed xs))

  pub All-Listed_at : (P : A → Type 0) {a : A} (xs : List A) → All P xs → Listed a xs → P a
  All-Listed_at P [] h l = absurd l
  All-Listed_at P (x ∷ xs) h (inl e) = subst P e h.0
  All-Listed_at P (x ∷ xs) h (inr l) = All-Listed_at P xs h.1 l

  pub All-keep_if_and :
      (P : A → Type 0) (keep : A → Bool) (xs : List A)
      → All P xs
      → All (λ x. P x × (keep x ≡ true)) (keep_if keep xs)
  All-keep_if_and P keep [] h = tt
  All-keep_if_and P keep (x ∷ xs) h = elim (Bool-cases (keep x)) [
    | inl yes' ↦ rw yes' ((h.0, yes'), All-keep_if_and P keep xs h.1)
    | inr no' ↦ rw no' (All-keep_if_and P keep xs h.1)
  ]

  -- What each item has when each that is kept has it.
  pub All-of_kept :
      (P : A → Type 0) (keep : A → Bool) (xs : List A)
      → All P (keep_if keep xs)
      → All (λ x. keep x ≡ true → P x) xs
  All-of_kept P keep [] h = tt
  All-of_kept P keep (x ∷ xs) h = elim (Bool-cases (keep x)) [
    | inl yes' ↦ let both = (rw yes' at h) in (λ y. both.0, All-of_kept P keep xs both.1)
    | inr no' ↦ (λ y. absurd (ground arith), All-of_kept P keep xs (rw no' at h))
  ]

  pub All-and : (P Q : A → Type 0) (xs : List A) → All P xs → All Q xs → All (λ x. P x × Q x) xs
  All-and P Q [] h k = tt
  All-and P Q (x ∷ xs) h k = ((h.0, k.0), All-and P Q xs h.1 k.1)
