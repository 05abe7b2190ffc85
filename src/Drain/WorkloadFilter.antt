-- ===== src/Drain/WorkloadFilter.antt =====
-- pkg/drain/workload_filter.go: the workloads that --skip-workload and --only-workload leave alone.
pub mod Partition
use k8s_safed.Base.{String, Bool, true, false, List, [], ◌∷◌, ◌++◌, not, ◌&&◌, ◌||◌, if◌then◌else◌}
use k8s_safed.Base.Maps.{Map, get_flag}
use k8s_safed.Workload.{Workload, workload_key}
use k8s_safed.Drain.Options.{Options}

abbrev pub is_empty_map : Map Bool → Bool
is_empty_map [] = true
is_empty_map (e ∷ m) = false

-- Whether the body of the loop goes on to the next workload.
unfoldable pub is_filtered_out : Options → Workload → Bool
is_filtered_out opts w =
    if not (is_empty_map opts.only_workloads) && not (get_flag (workload_key w) opts.only_workloads)
    then true
    else if get_flag (workload_key w) opts.skip_workloads
    then true
    else false

-- The loop: the workloads that stay, and `state.protectedWorkloads`.
unfoldable pub split_workloads :
    Options → List Workload × List Workload → List Workload → List Workload × List Workload
split_workloads opts acc [] = acc
split_workloads opts (filtered, protected) (w ∷ ws) =
    split_workloads opts
      (if is_filtered_out opts w
        then (filtered, protected ++ w ∷ [])
        else (filtered ++ w ∷ [], protected))
      ws

unfoldable pub filter_workloads : Options → List Workload → List Workload × List Workload
unfolding split_workloads
filter_workloads opts workloads =
    if is_empty_map opts.skip_workloads && is_empty_map opts.only_workloads
    then (workloads, [])
    else split_workloads opts ([], []) workloads
