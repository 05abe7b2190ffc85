-- ===== src/Drain/Checkpoint/Path.antt =====
-- `CheckpointPath` and `sanitizeFilename` of pkg/drain/checkpoint.go.
pub mod Names
use Prim.Native.Char.{Char, code}
use k8s_safed.Base.{String, ℕ, Bool, ◌||◌, nat_eq, if◌then◌else◌}
use k8s_safed.Base.Text.{append_text}
use k8s_safed.Cluster.Env.{Result, ok}
use k8s_safed.Config.{and_then, in_words, join_home}

-- A slash, a colon, a space or a backslash.
abbrev pub is_problematic : ℕ → Bool
is_problematic c = nat_eq c b'/' || (nat_eq c b':' || (nat_eq c b' ' || nat_eq c 92))

abbrev pub safe_char : Char → Char
safe_char c = if is_problematic (code c) then "-" else c

unfoldable pub sanitize_filename : String → String
sanitize_filename String.[] = ""
sanitize_filename (String.◌∷◌ c s) = String.◌∷◌ (safe_char c) (sanitize_filename s)

unfoldable pub file_name : String → String → String
file_name kube_context node_name =
    append_text (sanitize_filename kube_context)
      (append_text "-" (append_text (sanitize_filename node_name) ".json"))

-- For what os.UserHomeDir returns.
unfoldable pub checkpoint_path : Result String → String → String → Result String
checkpoint_path user_home_dir kube_context node_name =
    and_then (in_words "resolving home directory" user_home_dir) (λ home.
      ok (
        join_home home (append_text ".kube/safed-checkpoints/" (file_name kube_context node_name))))
