-- ===== src/Drain/Checkpoint/Store.antt =====
-- `LoadCheckpoint`, `Save` and `DeleteCheckpoint` of pkg/drain/checkpoint.go.
pub mod Atomic
use k8s_safed.Base.{String, Option, none, some, List, [], ◌∷◌, if◌then◌else◌}
use k8s_safed.Base.Maps.{Map}
use k8s_safed.Base.Text.{append_text}
use k8s_safed.Cluster.Env.{Env, Error, is_not_exist, message, wrap}
use k8s_safed.Cluster.Files.{Document, Content, document, garbled}
use k8s_safed.Cluster.Exec.{Exec, Done, pure, raise, in_context, ◌>>=◌, ◌>>◌, try_catch}
use k8s_safed.Cluster.Requests.{read_file, make_dir_of, write_file, rename_file, remove_file}
use k8s_safed.Drain.Checkpoint.{Checkpoint, new_checkpoint}

-- `omitempty`
abbrev pub omit_empty : {V : Type 0} → Map V → Option (Map V)
omit_empty [] = none
omit_empty (e ∷ m) = some (e ∷ m)

-- `if m == nil { m = make(map…) }`
abbrev pub make_if_nil : {V : Type 0} → Option (Map V) → Map V
make_if_nil none = []
make_if_nil (some m) = m

-- json.MarshalIndent
unfoldable pub encode : Checkpoint → Content
encode cp = document (record {
  node_name = cp.node_name;
  context = cp.context;
  completed = omit_empty cp.completed;
  workloads = omit_empty cp.workloads;
})

-- json.Unmarshal, and the maps that it leaves nil.
unfoldable pub decode : Content → Exec Checkpoint
decode garbled = raise (message "parsing checkpoint")
decode (document doc) = pure (record {
  node_name = doc.node_name;
  context = doc.context;
  completed = make_if_nil doc.completed;
  workloads = make_if_nil doc.workloads;
})

abbrev pub temp_path : String → String
temp_path path = append_text path ".tmp"

module _ (env : Env) where
  -- A missing file is an empty checkpoint.
  unfoldable pub load_checkpoint : String → Exec Checkpoint
  unfolding decode
  load_checkpoint path =
      try_catch (read_file env path) decode
        λ e. if is_not_exist e then pure new_checkpoint else raise (wrap "reading checkpoint" e)

  -- Written beside the file, then renamed.
  unfoldable pub save : Checkpoint → String → Exec Done
  unfolding encode
  save cp path =
      in_context "creating checkpoint directory" (make_dir_of env path)
      >> in_context "writing checkpoint" (write_file env (temp_path path) (encode cp))
      >> in_context "committing checkpoint" (rename_file env (temp_path path) path)

  unfoldable pub delete_checkpoint : String → Exec Done
  delete_checkpoint path =
      try_catch (remove_file env path) pure (λ e. if is_not_exist e then pure tt else raise e)
