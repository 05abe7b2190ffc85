-- ===== src/Workload/Priority.antt =====
-- `parseDrainPriority` of pkg/workload/workload.go, with strconv.Atoi on 64 bits.
use Prim.Native.Char.{code}
use k8s_safed.Base.{
  ℕ, zero, suc, ◌+◌, ◌-◌, ◌*◌, ◌^◌, ◌≡◌, refl, String, Bool, true, false, Option, none, some, ◌&&◌,
  inl, inr, Option-cases, arith, ltb, leb, nat_eq, if◌then◌else◌, [], ◌∷◌,
}
use k8s_safed.Base.Int.{ℤ, pos, negsuc, ◌≤ℤ◌}
use k8s_safed.Base.Maps.{Map, lookup}

abbrev pub drain_priority_annotation : String
drain_priority_annotation = "kubectl.safed.io/drain-priority"

abbrev pub default_drain_priority : ℤ
default_drain_priority = pos 100

digits_from : ℕ → String → Option ℕ
digits_from n String.[] = some n
digits_from n (String.◌∷◌ c rest) =
    let d = code c in
    if leb b'0' d && leb d b'9' then digits_from (n * 10 + (d - b'0')) rest else none

digits : String → Option ℕ
unfolding digits_from
digits String.[] = none
digits (String.◌∷◌ c rest) = digits_from 0 (String.◌∷◌ c rest)

negate : ℕ → ℤ
negate zero = pos 0
negate (suc n) = negsuc n

positive : Option ℕ → Option ℤ
positive none = none
positive (some n) = if ltb n (2 ^ 63) then some (pos n) else none

negative : Option ℕ → Option ℤ
unfolding negate
negative none = none
negative (some n) = if leb n (2 ^ 63) then some (negate n) else none

-- strconv.Atoi: `none` where it returns an error.
atoi : String → Option ℤ
unfolding digits positive negative
atoi String.[] = none
atoi (String.◌∷◌ c rest) =
    if nat_eq (code c) b'-'
    then negative (digits rest)
    else if nat_eq (code c) b'+'
    then positive (digits rest)
    else positive (digits (String.◌∷◌ c rest))

abbrev or_default : String → Option ℤ → ℤ × String × Bool
or_default v none = (default_drain_priority, v, true)
or_default v (some n) = (n, v, false)

-- The priority, the annotation's value, and whether that value is invalid.
unfoldable pub parse_drain_priority : Map String → ℤ × String × Bool
unfolding atoi lookup
parse_drain_priority annotations = elim (lookup drain_priority_annotation annotations) [
  | none ↦ (default_drain_priority, "", false)
  | some v ↦ or_default v (atoi v)
]

negative_priority :
    parse_drain_priority ((drain_priority_annotation, "-20") ∷ []) ≡ (negsuc 19, "-20", false)
unfolding parse_drain_priority
negative_priority = refl

abbrev pub FitsInt64 : ℤ → Type 0
FitsInt64 n = (negsuc (2 ^ 63 - 1) ≤ℤ n) × (n ≤ℤ pos (2 ^ 63 - 1))

negative-FitsInt64 : (d : Option ℕ) (n : ℤ) → negative d ≡ some n → FitsInt64 n
unfolding negative
negative-FitsInt64 none n h = ground arith
negative-FitsInt64 (some zero) n h = ground arith
negative-FitsInt64 (some (suc m)) n h = ground arith

positive-FitsInt64 : (d : Option ℕ) (n : ℤ) → positive d ≡ some n → FitsInt64 n
unfolding positive
positive-FitsInt64 none n h = ground arith
positive-FitsInt64 (some m) n h = ground arith

signed-FitsInt64 :
    (minus plus : Bool) (a b c : Option ℕ) (n : ℤ)
    → (if minus then negative a else if plus then positive b else positive c) ≡ some n
    → FitsInt64 n
signed-FitsInt64 true plus a b c n h = negative-FitsInt64 a n h
signed-FitsInt64 false true a b c n h = positive-FitsInt64 b n h
signed-FitsInt64 false false a b c n h = positive-FitsInt64 c n h

atoi-FitsInt64 : (v : String) (n : ℤ) → atoi v ≡ some n → FitsInt64 n
unfolding atoi
atoi-FitsInt64 String.[] n h = ground arith
atoi-FitsInt64 (String.◌∷◌ c rest) n h =
    signed-FitsInt64 (nat_eq (code c) b'-') (nat_eq (code c) b'+') (digits rest) (digits rest)
      (digits (String.◌∷◌ c rest)) n h

-- What a parse owes: a priority within int64, and the default where the value is invalid.
abbrev pub IsWellParsed : ℤ × String × Bool → Type 0
IsWellParsed (priority, value, invalid) =
    FitsInt64 priority × (invalid ≡ true → priority ≡ default_drain_priority)

or_default-IsWellParsed : (v : String) (r : Option ℤ) → atoi v ≡ r → IsWellParsed (or_default v r)
or_default-IsWellParsed v none h = ((omega arith, omega arith), λ _. refl)
or_default-IsWellParsed v (some n) h = (atoi-FitsInt64 v n h, λ bad. ground arith)

-- A parsed priority is always within int64, and an annotation that is reported as invalid gives
-- the default priority.
pub parse_drain_priority_well :
    (annotations : Map String) → IsWellParsed (parse_drain_priority annotations)
unfolding parse_drain_priority
parse_drain_priority_well annotations =
    elim (Option-cases (lookup drain_priority_annotation annotations)) [
      | inl none' ↦ rw (none', parse_drain_priority) ((omega arith, omega arith), λ _. refl)
      | inr (v, found) ↦ rw (found, parse_drain_priority) (or_default-IsWellParsed v (atoi v) refl)
    ]
