-- ===== src/Base/Int.antt =====
-- Signed integers over the native numbers, with Go's wrap-around on 64 bits.
use Prim.Native.Nat.{ℕ, suc, ◌+◌, ◌-◌, ◌*◌, ◌%◌, ◌^◌, ◌≤◌, ◌<◌}
use mathlib.Core.Path.{◌≡◌, refl}
use mathlib.Core.Bool.{Bool, true}
use native.Mathlib.Omega.{arith}
use k8s_safed.Base.Tests.{ltb, leb, nat_eq, if◌then◌else◌}

-- `negsuc n` is -(n + 1).
pub data ℤ : Type 0 where
  pos : ℕ → ℤ
  negsuc : ℕ → ℤ

abbrev pub pos_part : ℤ → ℕ
pos_part (pos n) = n
pos_part (negsuc n) = 0

abbrev pub neg_part : ℤ → ℕ
neg_part (pos n) = 0
neg_part (negsuc n) = suc n

infix 50 ◌≤ℤ◌ ◌<ℤ◌
abbrev pub ◌≤ℤ◌ : ℤ → ℤ → Type 0
a ≤ℤ b = pos_part a + neg_part b ≤ pos_part b + neg_part a

abbrev pub ◌<ℤ◌ : ℤ → ℤ → Type 0
a <ℤ b = pos_part a + neg_part b < pos_part b + neg_part a

abbrev pub int_ltb : ℤ → ℤ → Bool
int_ltb a b = ltb (pos_part a + neg_part b) (pos_part b + neg_part a)

abbrev pub int_leb : ℤ → ℤ → Bool
int_leb a b = leb (pos_part a + neg_part b) (pos_part b + neg_part a)

abbrev pub int_eq : ℤ → ℤ → Bool
int_eq a b = nat_eq (pos_part a + neg_part b) (pos_part b + neg_part a)

pub eq_of_int_eq : (a b : ℤ) → int_eq a b ≡ true → a ≡ b
eq_of_int_eq (pos n) (pos m) h = ground arith
eq_of_int_eq (pos n) (negsuc m) h = ground arith
eq_of_int_eq (negsuc n) (pos m) h = ground arith
eq_of_int_eq (negsuc n) (negsuc m) h = ground arith

-- The value of a 64-bit pattern as an int64.
abbrev pub of_word : ℕ → ℤ
of_word m = if ltb m (2 ^ 63) then pos m else negsuc (2 ^ 64 - m - 1)

-- An integer brought back into the range of int64, as Go's arithmetic does.
abbrev pub wrap_int64 : ℤ → ℤ
wrap_int64 (pos n) = of_word (n % 2 ^ 64)
wrap_int64 (negsuc n) = of_word (2 ^ 64 - 1 - n % 2 ^ 64)

-- `x *= 2` on an int64.
abbrev pub double_int64 : ℤ → ℤ
double_int64 (pos n) = wrap_int64 (pos (2 * n))
double_int64 (negsuc n) = wrap_int64 (negsuc (2 * n + 1))

double_max : double_int64 (pos (2 ^ 62)) ≡ negsuc (2 ^ 63 - 1)
double_max = refl

double_negative : double_int64 (negsuc 4) ≡ negsuc 9
double_negative = refl
