-- ===== src/Drain/Printer/Columns.antt =====
-- The columns of a plain line can be read back.
use native.Mathlib.Nat.{zero-add, suc-add, add_assoc}
use mathlib.Core.List.{append_assoc}
use k8s_safed.Base.{
  ◌≡◌, refl, sym, ap, ◌∙◌, ℕ, zero, suc, ◌+◌, ◌-◌, Bool, false, List, [], ◌∷◌, ◌++◌, length, drop,
  any, nat_eq, arith, if◌then◌else◌,
}
use k8s_safed.Base.Text.{codes}
use k8s_safed.Drain.Printer.{
  Level, info, start, done, poll, dryrun, warn, level_text, blanks, pad, columns,
}

-- Up to the first blank.
pub word : List ℕ → List ℕ
word [] = []
word (c ∷ s) = let rest = word s in if nat_eq c 32 then [] else c ∷ rest

-- A word in a column of at least this width, and what stands after it and two blanks.
pub read_column : ℕ → List ℕ → List ℕ × List ℕ
read_column width line = let w = word line in (w, drop (length w + (width - length w) + 2) line)

pub without_last : List ℕ → List ℕ
without_last [] = []
without_last (c ∷ []) = []
without_last (c ∷ d ∷ s) = c ∷ without_last (d ∷ s)

-- The subject, the level and the message of a line, by the columns only.
pub read_columns : List ℕ → List ℕ × (List ℕ × List ℕ)
read_columns line =
    let (subject, rest) = read_column 32 (drop 18 line) in
    let (level, msg) = read_column 6 rest in (subject, (level, without_last msg))

abbrev pub has_blank : List ℕ → Bool
has_blank = any (λ c. nat_eq c 32)

drop-append : (s t : List ℕ) → drop (length s) (s ++ t) ≡ t
drop-append [] t = refl
drop-append (c ∷ s) t = drop-append s t

drop-append_more : (n : ℕ) (s t : List ℕ) → drop (length s + n) (s ++ t) ≡ drop n t
drop-append_more n [] t = rw zero-add refl
drop-append_more n (c ∷ s) t = rw suc-add (drop-append_more n s t)

length-blanks : (n : ℕ) → length (blanks n) ≡ n
unfolding blanks
length-blanks zero = refl
length-blanks (suc n) = ap suc (length-blanks n)

blanks-append : (n : ℕ) (t : List ℕ) → blanks n ++ (32 ∷ t) ≡ 32 ∷ (blanks n ++ t)
unfolding blanks
blanks-append zero t = refl
blanks-append (suc n) t = ap (λ s. 32 ∷ s) (blanks-append n t)

word-append : (s t : List ℕ) → has_blank s ≡ false → word (s ++ (32 ∷ t)) ≡ s
unfolding word
word-append [] t h = refl
word-append (c ∷ s) t h = ground (arith, word-append s t (ground arith))

drop-blanks : (n : ℕ) (t : List ℕ) → drop (n + 2) (blanks n ++ (32 ∷ 32 ∷ t)) ≡ t
drop-blanks n t =
    ap (λ k. drop (k + 2) (blanks n ++ (32 ∷ 32 ∷ t))) (sym (length-blanks n))
    ∙ drop-append_more 2 (blanks n) (32 ∷ 32 ∷ t)

pad-append :
    (width : ℕ) (s r : List ℕ)
    → pad width s ++ (32 ∷ 32 ∷ r) ≡ s ++ (blanks (width - length s) ++ (32 ∷ 32 ∷ r))
unfolding pad
pad-append width s r = append_assoc s (blanks (width - length s)) (32 ∷ 32 ∷ r)

word-pad :
    (width : ℕ) (s r : List ℕ) → has_blank s ≡ false → word (pad width s ++ (32 ∷ 32 ∷ r)) ≡ s
word-pad width s r h =
    ap word (pad-append width s r ∙ ap (λ t. s ++ t) (blanks-append (width - length s) (32 ∷ r)))
    ∙ word-append s _ h

drop-pad :
    (width : ℕ) (s r : List ℕ)
    → drop (length s + (width - length s) + 2) (pad width s ++ (32 ∷ 32 ∷ r)) ≡ r
drop-pad width s r =
    rw (pad-append width s r, add_assoc (length s) (width - length s) 2)
      (drop-append_more (width - length s + 2) s _ ∙ drop-blanks (width - length s) r)

read_column-pad :
    (width : ℕ) (s r : List ℕ)
    → has_blank s ≡ false
    → read_column width (pad width s ++ (32 ∷ 32 ∷ r)) ≡ (s, r)
unfolding read_column
read_column-pad width s r h = rw (word-pad width s r h) (ap (λ t. (s, t)) (drop-pad width s r))

without_last-append : (s : List ℕ) (c : ℕ) → without_last (s ++ (c ∷ [])) ≡ s
unfolding without_last
without_last-append [] c = refl
without_last-append (d ∷ []) c = refl
without_last-append (d ∷ e ∷ s) c = ap (λ t. d ∷ t) (without_last-append (e ∷ s) c)

level_text-whole : (level : Level) → has_blank (level_text level) ≡ false
unfolding level_text
level_text-whole info = refl
level_text-whole start = refl
level_text-whole done = refl
level_text-whole poll = refl
level_text-whole dryrun = refl
level_text-whole warn = refl

-- A clock of eight characters ends at the column of the subject.
drop-head :
    (ts t : List ℕ) → length ts ≡ 8 → drop 18 (codes "[safed] " ++ (ts ++ (32 ∷ 32 ∷ t))) ≡ t
drop-head ts t h =
    ap (λ n. drop (n + 2) (ts ++ (32 ∷ 32 ∷ t))) (sym h) ∙ drop-append_more 2 ts (32 ∷ 32 ∷ t)

-- A plain line gives back the subject, the level and the message by its columns, whatever their
-- lengths, when the clock has eight characters and the subject has no blank in it.
pub read_columns-columns :
    (ts subject : List ℕ) (level : Level) (msg : List ℕ)
    → length ts ≡ 8
    → has_blank subject ≡ false
    → read_columns (columns ts subject level msg) ≡ (subject, (level_text level, msg))
unfolding read_columns columns
read_columns-columns ts subject level msg clock whole =
    rw
      (
        drop-head ts _ clock,
        read_column-pad 32 subject _ whole,
        read_column-pad 6 (level_text level) _ (level_text-whole level),
        without_last-append msg 10,
      )
      refl
