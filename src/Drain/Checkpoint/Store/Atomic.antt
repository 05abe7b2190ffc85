-- ===== src/Drain/Checkpoint/Store/Atomic.antt =====
-- What the checkpoint file holds after a save, and what a load of it returns.
use text.Mathlib.TextLemmas.{append_cancel_left, append-nil, cons≢nil}
use k8s_safed.Base.{
  ◌≡◌, refl, sym, ◌∙◌, String, false, Option, none, some, [], ◌∷◌, arith, ◌==◌, eq_iff,
  Option-cases, Bool-cases, inl, inr,
}
use k8s_safed.Base.Maps.{Map, lookup, insert, lookup-insert}
use k8s_safed.Base.Text.{append_text}
use k8s_safed.Cluster.Calls.{Call, FileOperation}
use k8s_safed.Cluster.Env.{Env, ok}
use k8s_safed.Cluster.Files.{Content}
use k8s_safed.Cluster.Exec.{World, ask, pure}
use k8s_safed.Cluster.Exec.Meets.{Post, Post-ok, Meets, Meets-bind}
use k8s_safed.Cluster.Exec.Meets.More.{Meets-in_context}
use k8s_safed.Cluster.Exec.Steps.{try_catch-ok}
use k8s_safed.Cluster.Requests.{read_file, make_dir_of, write_file, rename_file}
use k8s_safed.Drain.Checkpoint.{Checkpoint}
use k8s_safed.Drain.Checkpoint.Store.{
  omit_empty, make_if_nil, encode, decode, temp_path, load_checkpoint, save,
}

temp_path-new : (path : String) → (temp_path path == path) ≡ false
unfolding append_text
temp_path-new path = elim (Bool-cases (temp_path path == path)) [
  | inl same ↦
      let e : ".tmp" ≡ "" =
        append_cancel_left path ".tmp" ""
          ((eq_iff (temp_path path) path).0 same ∙ sym (append-nil path)) in
      absurd (cons≢nil e)
  | inr new ↦ new
]

make_if_nil-omit_empty : {V : Type 0} (m : Map V) → make_if_nil (omit_empty m) ≡ m
make_if_nil-omit_empty [] = refl
make_if_nil-omit_empty (e ∷ m) = refl

-- Decoding what a checkpoint is encoded to gives the checkpoint back, with nil maps and empty ones
-- the same.
pub decode-encode : (cp : Checkpoint) (w : World) → decode (encode cp) w ≡ (ok cp, w)
unfolding decode encode pure
decode-encode cp w =
    rw (make_if_nil-omit_empty cp.completed, make_if_nil-omit_empty cp.workloads) refl

module _ (env : Env) (cp : Checkpoint) (path : String) (before : Option Content) where
  abbrev Unchanged : World → Type 0
  Unchanged w = lookup path w.files ≡ before

  abbrev IsWritten : World → Type 0
  IsWritten w = Unchanged w × (lookup (temp_path path) w.files ≡ some (encode cp))

  abbrev IsCommitted : World → Type 0
  IsCommitted w = lookup path w.files ≡ some (encode cp)

  lookup_beside :
      (c : Content) (m : Map Content) → lookup path (insert (temp_path path) c m) ≡ lookup path m
  lookup_beside c m = rw (lookup-insert (temp_path path) path c m, temp_path-new path) refl

  lookup_same : (k : String) (c : Content) (m : Map Content) → lookup k (insert k c m) ≡ some c
  lookup_same k c m = ground (arith, lookup-insert k k c m, eq_iff k k)

  make_dir-Meets : Meets Unchanged (λ _. Unchanged) (λ _. Unchanged) (make_dir_of env path)
  unfolding make_dir_of ask
  make_dir-Meets = record {
    at = λ w h. elim (Option-cases (env.file_error w.calls (FileOperation.make_dir path))) [
      | inl fine ↦ rw fine h
      | inr (e, failed) ↦ rw failed h
    ];
  }

  write-Meets :
      Meets Unchanged
        (λ _. IsWritten)
        (λ _. Unchanged)
        (write_file env (temp_path path) (encode cp))
  unfolding write_file ask
  write-Meets = record {
    at = λ w h.
        elim (Option-cases (env.file_error w.calls (FileOperation.write (temp_path path)))) [
          | inl fine ↦ rw fine (lookup_beside _ w.files ∙ h, lookup_same (temp_path path) _ w.files)
          | inr (e, failed) ↦ rw failed (lookup_beside _ w.files ∙ h)
        ];
  }

  rename-Meets :
      Meets IsWritten (λ _. IsCommitted) (λ _. Unchanged) (rename_file env (temp_path path) path)
  unfolding rename_file ask
  rename-Meets = record {
    at = λ w h.
        elim (Option-cases (env.file_error w.calls (FileOperation.rename (temp_path path) path))) [
          | inl fine ↦ rw (fine, h.1) (lookup_same path _ _)
          | inr (e, failed) ↦ rw failed h.0
        ];
  }

  save-Meets : Meets Unchanged (λ _. IsCommitted) (λ _. Unchanged) (save env cp path)
  unfolding save
  save-Meets =
      Meets-bind (λ _. IsWritten) _ _
        (Meets-bind (λ _. Unchanged) _ _ (Meets-in_context _ _ make_dir-Meets)
          (λ _. Meets-in_context _ _ write-Meets))
        (λ _. Meets-in_context _ _ rename-Meets)

-- In any environment, a save that succeeds leaves the encoded checkpoint at the path, and one that
-- fails, at whichever of its three steps, leaves there what was there before.
pub save_atomic :
    (env : Env) (cp : Checkpoint) (path : String) (w : World)
    → Post
        (λ _ w'. lookup path w'.files ≡ some (encode cp))
        (λ _ w'. lookup path w'.files ≡ lookup path w.files)
        (save env cp path w)
save_atomic env cp path w = (save-Meets env cp path (lookup path w.files)).at w refl

-- A checkpoint that was saved is what a load returns, if reading the file does not fail.
pub load_checkpoint-save :
    (env : Env) (cp : Checkpoint) (path : String) (w w' : World)
    → save env cp path w ≡ (ok tt, w')
    → env.file_error w'.calls (FileOperation.read path) ≡ none
    → load_checkpoint env path w'
      ≡ (ok cp, record w' { calls = Call.file (FileOperation.read path) ∷ w'.calls })
unfolding load_checkpoint read_file ask
load_checkpoint-save env cp path w w' saved readable =
    let written =
      Post-ok (λ _ u. lookup path u.files ≡ some (encode cp)) _ saved (save_atomic env cp path w) in
    try_catch-ok _ _ _ w' (rw (readable, written) refl) ∙ decode-encode cp _
