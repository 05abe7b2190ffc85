-- ===== src/Tests/Basics.antt =====
-- The theorems on workloads and checkpoints, at the small cluster.
use k8s_safed.Base.Text.{append_text}
use k8s_safed.Base.Maps.{insert}
use k8s_safed.Cluster.Requests.{make_dir_of, write_file, rename_file}
use k8s_safed.Workload.{is_terminal_pod, controller_owner_ref}
use k8s_safed.Cluster.Exec.{◌>>=◌, in_context, ask}
use k8s_safed.Workload.Finder.{
  find_for_node, resolve_owner, resolve_replica_set, resolve_deployment, note_workload,
  deployment_workload,
}
use mathlib.Core.List.{Perm, Nodup}
use k8s_safed.Base.{◌≡◌, refl, true, not, [], ◌∷◌, none, some, keep_if}
use k8s_safed.Base.Int.{ℤ, negsuc}
use k8s_safed.Base.Maps.{lookup}
use k8s_safed.Cluster.Calls.{Call, FileOperation, caller}
use k8s_safed.Cluster.Env.{ok}
use k8s_safed.Cluster.Exec.{World}
use k8s_safed.Cluster.Exec.Meets.{Post}
use k8s_safed.Workload.{Workload}
use k8s_safed.Workload.Finder.Resolve.{IsRollable}
use k8s_safed.Workload.Finder.Distinct.{keys, find_for_node_distinct}
use k8s_safed.Base.{All}
use k8s_safed.Drain.Options.{Options}
use k8s_safed.Drain.Runner.Order.{sort_by_priority}
use k8s_safed.Drain.Runner.Order.Stable.{IsOrdered, at_priority, sort_by_priority_stable}
use k8s_safed.Drain.WorkloadFilter.{filter_workloads}
use k8s_safed.Drain.WorkloadFilter.Partition.{is_chosen, filter_workloads_partition}
use k8s_safed.Drain.Checkpoint.{Checkpoint}
use k8s_safed.Drain.Checkpoint.Store.{save, load_checkpoint, encode, decode}
use k8s_safed.Drain.Checkpoint.Store.Atomic.{save_atomic, load_checkpoint-save, decode-encode}
use k8s_safed.Tests.Cluster.{env, options, start, web}

find_for_node_distinct_example : Nodup (keys (web ∷ [])) × All IsRollable (web ∷ [])
unfolding find_for_node ◌>>=◌ in_context ask is_terminal_pod resolve_owner controller_owner_ref
    resolve_replica_set lookup resolve_deployment note_workload deployment_workload
find_for_node_distinct_example = find_for_node_distinct env caller "n1" start refl

abbrev first_one : Workload
first_one = record web { name = "db"; priority = negsuc 6 }

sort_by_priority_stable_example :
    Perm (sort_by_priority (web ∷ first_one ∷ [])) (web ∷ first_one ∷ [])
    × (IsOrdered (sort_by_priority (web ∷ first_one ∷ []))
        × ((p : ℤ)
            → at_priority p (sort_by_priority (web ∷ first_one ∷ []))
              ≡ at_priority p (web ∷ first_one ∷ [])))
sort_by_priority_stable_example = sort_by_priority_stable (web ∷ first_one ∷ [])

abbrev skipping : Options
skipping = record options { skip_workloads = ("Deployment/shop/web", true) ∷ [] }

filter_workloads_partition_example : filter_workloads skipping (web ∷ first_one ∷ []) ≡ (
  keep_if (is_chosen skipping) (web ∷ first_one ∷ []),
  keep_if (λ w. not (is_chosen skipping w)) (web ∷ first_one ∷ []),
)
filter_workloads_partition_example = filter_workloads_partition skipping (web ∷ first_one ∷ [])

abbrev progress : Checkpoint
progress = record {
  node_name = "n1";
  context = "";
  completed = ("Deployment/shop/web", true) ∷ [];
  workloads = [];
}

save_atomic_example :
    Post
      (λ _ w'. lookup "cp" w'.files ≡ some (encode progress))
      (λ _ w'. lookup "cp" w'.files ≡ none)
      (save env progress "cp" start)
unfolding lookup
save_atomic_example = save_atomic env progress "cp" start

abbrev saved : World
saved = (save env progress "cp" start).1

load_checkpoint-save_example :
    load_checkpoint env "cp" saved
    ≡ (ok progress, record saved { calls = Call.file (FileOperation.read "cp") ∷ saved.calls })
unfolding save ◌>>=◌ in_context make_dir_of write_file rename_file lookup insert append_text
load_checkpoint-save_example = load_checkpoint-save env progress "cp" start saved refl refl

decode-encode_example : decode (encode progress) start ≡ (ok progress, start)
decode-encode_example = decode-encode progress start
