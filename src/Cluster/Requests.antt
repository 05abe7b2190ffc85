-- ===== src/Cluster/Requests.antt =====
-- The client: one action for each request, each wait and each file operation.
use k8s_safed.Base.{String, Bool, Option, none, some, List}
use k8s_safed.Base.Int.{ℤ}
use k8s_safed.Base.Maps.{lookup, insert, delete}
use k8s_safed.Cluster.Objects.{
  Time, Duration, Pod, ReplicaSet, Deployment, StatefulSet, Node, PodDisruptionBudget,
}
use k8s_safed.Cluster.Calls.{Context, Event, Request, Call, FileOperation}
use k8s_safed.Cluster.Env.{Env, Error, Result, ok, err}
use k8s_safed.Cluster.Files.{Content}
use k8s_safed.Cluster.Exec.{World, Exec, Done, ask, gets}

module _ (env : Env) where
  abbrev pub now : Exec Time
  now = gets (λ w. env.now w.calls)

  abbrev pub context_error : Context → Exec (Option Error)
  context_error ctx = gets (λ w. env.context_error w.calls ctx)

  -- `select { case <-ctx.Done(): … case <-after(d): … }`
  abbrev pub wait_or_done : Context → Duration → Exec (Option Error)
  wait_or_done ctx d = ask (λ h. ok (env.select_done h ctx d)) (Call.pause d)

  abbrev pub get_node : Context → String → Exec Node
  get_node ctx name = ask (λ h. env.node_of h ctx name) (Call.request ctx (Request.get_node name))

  abbrev pub list_nodes : Context → String → Exec (List Node)
  list_nodes ctx sel = ask (λ h. env.nodes_of h ctx sel) (Call.request ctx (Request.list_nodes sel))

  abbrev pub patch_node : Context → String → Bool → Exec Done
  patch_node ctx name b =
      ask (λ h. env.patched_node h ctx name b) (Call.request ctx (Request.patch_node name b))

  abbrev pub list_pods : Context → String → String → String → Exec (List Pod)
  list_pods ctx ns sel fields =
      ask (λ h. env.pods_of h ctx ns sel fields)
        (Call.request ctx (Request.list_pods ns sel fields))

  abbrev pub get_pod : Context → String → String → Exec Pod
  get_pod ctx ns name =
      ask (λ h. env.pod_of h ctx ns name) (Call.request ctx (Request.get_pod ns name))

  abbrev pub delete_pod : Context → String → String → Option ℤ → Exec Done
  delete_pod ctx ns name grace =
      ask (λ h. env.deleted_pod h ctx ns name grace)
        (Call.request ctx (Request.delete_pod ns name grace))

  abbrev pub evict_pod : Context → String → String → Option ℤ → Exec Done
  evict_pod ctx ns name grace =
      ask (λ h. env.evicted_pod h ctx ns name grace)
        (Call.request ctx (Request.evict_pod ns name grace))

  abbrev pub get_replica_set : Context → String → String → Exec ReplicaSet
  get_replica_set ctx ns name =
      ask (λ h. env.replica_set_of h ctx ns name)
        (Call.request ctx (Request.get_replica_set ns name))

  abbrev pub list_replica_sets : Context → String → String → Exec (List ReplicaSet)
  list_replica_sets ctx ns sel =
      ask (λ h. env.replica_sets_of h ctx ns sel)
        (Call.request ctx (Request.list_replica_sets ns sel))

  abbrev pub get_deployment : Context → String → String → Exec Deployment
  get_deployment ctx ns name =
      ask (λ h. env.deployment_of h ctx ns name) (Call.request ctx (Request.get_deployment ns name))

  abbrev pub patch_deployment : Context → String → String → Time → Exec Deployment
  patch_deployment ctx ns name t =
      ask (λ h. env.patched_deployment h ctx ns name t)
        (Call.request ctx (Request.patch_deployment ns name t))

  abbrev pub get_stateful_set : Context → String → String → Exec StatefulSet
  get_stateful_set ctx ns name =
      ask (λ h. env.stateful_set_of h ctx ns name)
        (Call.request ctx (Request.get_stateful_set ns name))

  abbrev pub patch_stateful_set : Context → String → String → Time → Exec StatefulSet
  patch_stateful_set ctx ns name t =
      ask (λ h. env.patched_stateful_set h ctx ns name t)
        (Call.request ctx (Request.patch_stateful_set ns name t))

  abbrev pub list_budgets : Context → String → Exec (List PodDisruptionBudget)
  list_budgets ctx ns =
      ask (λ h. env.budgets_of h ctx ns) (Call.request ctx (Request.list_budgets ns))

  abbrev pub create_event : Context → String → Event → Exec Done
  create_event ctx ns e =
      ask (λ h. env.created_event h ctx ns e) (Call.request ctx (Request.create_event ns e))

  -- `err` if the environment fails the operation.
  abbrev pub failing : Option Error → Result Done
  failing none = ok tt
  failing (some e) = err e

  abbrev pub file_operation : FileOperation → Exec Done
  file_operation op = ask (λ h. failing (env.file_error h op)) (Call.file op)

-- What a file holds, or os.ErrNotExist.
abbrev content_of : Option Content → Result Content
content_of none = err Error.not_exist
content_of (some c) = ok c

abbrev pub after_read : String → Result Done → World → Result Content × World
after_read path (err e) w = (err e, w)
after_read path (ok done) w = (content_of (lookup path w.files), w)

-- A failed write may have written a part.
abbrev pub after_write : String → Content → Result Done → World → Result Done × World
after_write path c (err e) w = (err e, record w { files = insert path Content.garbled w.files })
after_write path c (ok done) w = (ok tt, record w { files = insert path c w.files })

abbrev pub moved : String → String → Option Content → World → Result Done × World
moved from to none w = (err Error.not_exist, w)
moved from to (some c) w = (ok tt, record w { files = insert to c (delete from w.files) })

abbrev pub after_rename : String → String → Result Done → World → Result Done × World
after_rename from to (err e) w = (err e, w)
after_rename from to (ok done) w = moved from to (lookup from w.files) w

abbrev pub removed : String → Option Content → World → Result Done × World
removed path none w = (err Error.not_exist, w)
removed path (some c) w = (ok tt, record w { files = delete path w.files })

abbrev pub after_remove : String → Result Done → World → Result Done × World
after_remove path (err e) w = (err e, w)
after_remove path (ok done) w = removed path (lookup path w.files) w

module _ (env : Env) where
  -- os.ReadFile
  unfoldable pub read_file : String → Exec Content
  unfolding ask
  read_file path w =
      let (r, w') = file_operation env (FileOperation.read path) w in after_read path r w'

  -- os.MkdirAll of the directory of a file. The files stay as they are.
  unfoldable pub make_dir_of : String → Exec Done
  unfolding ask
  make_dir_of path = file_operation env (FileOperation.make_dir path)

  -- os.WriteFile
  unfoldable pub write_file : String → Content → Exec Done
  unfolding ask
  write_file path c w =
      let (r, w') = file_operation env (FileOperation.write path) w in after_write path c r w'

  -- os.Rename
  unfoldable pub rename_file : String → String → Exec Done
  unfolding ask
  rename_file from to w =
      let (r, w') = file_operation env (FileOperation.rename from to) w in after_rename from to r w'

  -- os.Remove
  unfoldable pub remove_file : String → Exec Done
  unfolding ask
  remove_file path w =
      let (r, w') = file_operation env (FileOperation.remove path) w in after_remove path r w'
