-- ===== src/Drain/Checkpoint/Path/Names.antt =====
-- The names of checkpoint files.
use Prim.Native.Char.{Char, code}
use Prim.Native.String.{◌++◌}
use text.Mathlib.TextLemmas.{append_assoc, nil-append, cons-append}
use k8s_safed.Base.{◌≡◌, ◌≢◌, arith, refl, ap, String, false, Bool-cases, inl, inr}
use k8s_safed.Base.Text.{append_text}
use k8s_safed.Cluster.Env.{Result, ok}
use k8s_safed.Config.{and_then, in_words, join_home}
use k8s_safed.Drain.Checkpoint.Path.{
  is_problematic, safe_char, sanitize_filename, file_name, checkpoint_path,
}

-- Not a slash, a backslash, a colon or a space.
abbrev pub IsSafeChar : Char → Type 0
IsSafeChar c = (code c ≢ b'/') × ((code c ≢ 92) × ((code c ≢ b':') × (code c ≢ b' ')))

abbrev pub IsSafeName : String → Type 0
IsSafeName String.[] = Unit
IsSafeName (String.◌∷◌ c s) = IsSafeChar c × IsSafeName s

unproblematic-IsSafeChar : (c : Char) → is_problematic (code c) ≡ false → IsSafeChar c
unproblematic-IsSafeChar c fine =
    (λ e. ground arith, (λ e. ground arith, (λ e. ground arith, λ e. ground arith)))

safe_char-IsSafeChar : (c : Char) → IsSafeChar (safe_char c)
safe_char-IsSafeChar c = elim (Bool-cases (is_problematic (code c))) [
  | inl bad ↦ rw bad (unproblematic-IsSafeChar "-" refl)
  | inr fine ↦ rw fine (unproblematic-IsSafeChar c fine)
]

sanitize_filename-IsSafeName : (s : String) → IsSafeName (sanitize_filename s)
unfolding sanitize_filename
sanitize_filename-IsSafeName String.[] = tt
sanitize_filename-IsSafeName (String.◌∷◌ c s) =
    (safe_char-IsSafeChar c, sanitize_filename-IsSafeName s)

json-IsSafeName : IsSafeName ".json"
json-IsSafeName = (
  unproblematic-IsSafeChar "." refl,
  (
    unproblematic-IsSafeChar "j" refl,
    (
      unproblematic-IsSafeChar "s" refl,
      (unproblematic-IsSafeChar "o" refl, (unproblematic-IsSafeChar "n" refl, tt)),
    ),
  ),
)

append-IsSafeName : (s t : String) → IsSafeName s → IsSafeName t → IsSafeName (s ++ t)
append-IsSafeName String.[] t hs ht = rw (nil-append t) ht
append-IsSafeName (String.◌∷◌ c s) t hs ht =
    rw (cons-append c s t) (hs.0, append-IsSafeName s t hs.1 ht)

sanitize_filename-append :
    (s t : String) → sanitize_filename (s ++ t) ≡ sanitize_filename s ++ sanitize_filename t
unfolding sanitize_filename
sanitize_filename-append String.[] t = rw (nil-append t, nil-append (sanitize_filename t)) refl
sanitize_filename-append (String.◌∷◌ c s) t =
    rw (cons-append c s t, cons-append (safe_char c) (sanitize_filename s) (sanitize_filename t))
      (ap (λ r. String.◌∷◌ (safe_char c) r) (sanitize_filename-append s t))

-- The file name of a checkpoint has no slash, backslash, colon or space, whatever the context and
-- the node are called.
pub file_name-IsSafeName :
    (kube_context node_name : String) → IsSafeName (file_name kube_context node_name)
unfolding file_name append_text
file_name-IsSafeName kube_context node_name =
    append-IsSafeName _ _ (sanitize_filename-IsSafeName kube_context) (
      append-IsSafeName "-" _ (unproblematic-IsSafeChar "-" refl, tt)
        (append-IsSafeName _ ".json" (sanitize_filename-IsSafeName node_name) json-IsSafeName))

-- Two pairs of a context and a node have the same checkpoint file whenever a dash may stand in
-- either: the path of the context `a-b` and the node `c` is that of `a` and `b-c`.
pub checkpoint_path_collides :
    (home : Result String) (a b c : String)
    → checkpoint_path home (append_text a (append_text "-" b)) c
      ≡ checkpoint_path home a (append_text b (append_text "-" c))
unfolding checkpoint_path file_name append_text sanitize_filename
checkpoint_path_collides home a b c =
    ap
      (λ name.
        and_then (in_words "resolving home directory" home)
          (λ h. ok (join_home h (append_text ".kube/safed-checkpoints/" name))))
      (simp (sanitize_filename-append, append_assoc))
