-- ===== src/Base/Maps.antt =====
-- Go's `map[string]V` as an association list. Ranging over a map is modelled where it is done.
use Prim.Native.String.{String}
use mathlib.Core.Path.{◌≡◌, refl}
use mathlib.Core.Bool.{Bool, true, false, ◌||◌}
use mathlib.Core.Option.{Option, none, some}
use mathlib.Core.List.{List, [], ◌∷◌}
use native.Mathlib.Omega.{arith}
use text.Mathlib.Text.{◌==◌}
use text.Mathlib.TextEquality.{eq_iff}
use k8s_safed.Base.Tests.{if◌then◌else◌}

abbrev pub Map {ℓ} : Type ℓ → Type ℓ
Map V = List (String × V)

module _ {ℓ} {V : Type ℓ} where
  -- v, ok := m[k]
  unfoldable pub lookup : String → Map V → Option V
  lookup k [] = none
  lookup k ((j, v) ∷ m) = if j == k then some v else lookup k m

  -- m[k] = v
  unfoldable pub insert : String → V → Map V → Map V
  insert key new [] = (key, new) ∷ []
  insert key new ((k, old) ∷ rest) =
      if k == key then (key, new) ∷ rest else (k, old) ∷ insert key new rest

  -- delete(m, k)
  unfoldable pub delete : String → Map V → Map V
  delete k [] = []
  delete k ((j, w) ∷ m) = let rest = delete k m in if j == k then rest else (j, w) ∷ rest

  pub lookup-insert :
      (written read : String) (v : V) (m : Map V)
      → lookup read (insert written v m) ≡ (if written == read then some v else lookup read m)
  unfolding lookup insert
  lookup-insert written read v [] = refl
  lookup-insert written read v ((key, old) ∷ rest) =
      let later = lookup-insert written read v rest in
      ground (arith, later, eq_iff written read, eq_iff key written, eq_iff key read)

  pub lookup-delete :
      (gone read : String) (m : Map V)
      → lookup read (delete gone m) ≡ (if gone == read then none else lookup read m)
  unfolding lookup delete
  lookup-delete gone read [] = ground arith
  lookup-delete gone read ((key, old) ∷ rest) =
      let later = lookup-delete gone read rest in
      ground (arith, later, eq_iff gone read, eq_iff key gone, eq_iff key read)

-- `m[k]` at a map of texts, where a missing key reads as the empty text.
unfoldable pub get_text : String → Map String → String
get_text k m = elim (lookup k m) [ none ↦ "" | some v ↦ v ]

-- `m[k]` at a set, where a missing key reads as false.
unfoldable pub get_flag : String → Map Bool → Bool
get_flag k m = elim (lookup k m) [ none ↦ false | some b ↦ b ]

pub get_flag-insert :
    (k j : String) (m : Map Bool) → get_flag j (insert k true m) ≡ k == j || get_flag j m
unfolding get_flag
get_flag-insert k j m = ground (arith, lookup-insert k j true m)
