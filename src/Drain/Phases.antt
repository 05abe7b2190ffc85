-- ===== src/Drain/Phases.antt =====
-- pkg/drain/drain_phases.go, and `Run` of pkg/drain/drain.go: the whole drain of a node.
pub mod Reads
pub mod Cleared
pub mod Completed
use k8s_safed.Base.{Bool, true, false, List, not, ◌&&◌, ◌==◌, if◌then◌else◌}
use k8s_safed.Base.Int.{pos, int_ltb}
use k8s_safed.Cluster.Objects.{Node}
use k8s_safed.Cluster.Calls.{Context, caller, background, with_timeout}
use k8s_safed.Cluster.Env.{Env, Error}
use k8s_safed.Cluster.Exec.{
  Exec, Done, pure, raise, lift, ignore, in_context, ◌>>=◌, ◌>>◌, try_catch,
}
use k8s_safed.Cluster.Requests.{get_node}
use k8s_safed.Cluster.Poll.{Poller}
use k8s_safed.Workload.{Workload}
use k8s_safed.Workload.Finder.{find_for_node}
use k8s_safed.Drain.Options.{Options, PreflightMode, warn, strict, off}
use k8s_safed.Drain.Events.{node_event}
use k8s_safed.Drain.Node.{cordon, uncordon}
use k8s_safed.Drain.Rollout.Retry.{retry_transient}
use k8s_safed.Drain.Checkpoint.Store.{load_checkpoint, delete_checkpoint}
use k8s_safed.Drain.Checkpoint.Resume.{validate_checkpoint}
use k8s_safed.Drain.WorkloadFilter.{filter_workloads}
use k8s_safed.Drain.Runner.{run_workloads}
use k8s_safed.Drain.Preflight.{run_preflight}
use k8s_safed.Drain.Eviction.Remaining.{evict_remaining}

abbrev is_off : PreflightMode → Bool
is_off off = true
is_off warn = false
is_off strict = false

module _ (env : Env) (opts : Options) (ctx : Context) where
  unfoldable pub validate_node : Exec Node
  validate_node =
      in_context "node not found" (retry_transient env opts ctx (get_node env ctx opts.node_name))

  unfoldable pub discover_workloads : Exec (List Workload)
  discover_workloads =
      in_context "discovering workloads"
        (retry_transient env opts ctx (find_for_node env ctx opts.node_name))

  -- A resumed drain has a checkpoint that is its own.
  unfoldable pub check_checkpoint : Exec Done
  check_checkpoint =
      if opts.resume && not (opts.checkpoint_path == "")
      then in_context "loading checkpoint" (load_checkpoint env opts.checkpoint_path)
        >>= (λ cp. lift (validate_checkpoint opts cp))
      else pure tt

  -- The workloads to restart, and those that are left alone.
  unfoldable pub prepare_before_cordon : List Workload → Exec (List Workload × List Workload)
  prepare_before_cordon workloads =
      let (filtered, protected) = filter_workloads opts workloads in
      (if is_off opts.preflight then pure tt else run_preflight env opts ctx filtered)
      >> check_checkpoint
      >> pure (filtered, protected)

  unfoldable pub begin_cordoned_drain : Node → Exec Bool
  begin_cordoned_drain node = cordon env opts ctx node >>= λ cordoned_by_us.
      node_event env opts ctx "Draining" "Normal" >> pure cordoned_by_us

module _ (env : Env) (poller : Poller) (opts : Options) where
  unfoldable pub finish_successful_drain : Exec Done
  finish_successful_drain =
      if opts.dry_run then pure tt else node_event env opts background "Drained" "Normal"

  -- The steps after the cordon.
  unfoldable pub drain_cordoned : Context → List Workload × List Workload → Exec Done
  drain_cordoned ctx (workloads, protected) =
      run_workloads env poller opts ctx workloads
      >> evict_remaining env poller opts ctx protected
      >> (if not (opts.checkpoint_path == "") && not opts.dry_run
          then ignore (delete_checkpoint env opts.checkpoint_path)
          else pure tt)
      >> finish_successful_drain

  -- The deferred functions on a failure, the last deferred first.
  unfoldable pub clean_up : Bool → Error → Exec Done
  clean_up cordoned_by_us e =
      (if cordoned_by_us && opts.uncordon_on_failure then uncordon env opts else pure tt)
      >> node_event env opts background "DrainFailed" "Warning"
      >> raise e

  -- The context of a run, for the one that `Run` is called with.
  abbrev pub drain_context : Context → Context
  drain_context outer =
      if int_ltb (pos 0) opts.timeout then with_timeout opts.timeout outer else outer

  unfoldable pub run : Context → Exec Done
  run outer =
      let ctx = drain_context outer in
      validate_node env opts ctx >>= λ node. discover_workloads env opts ctx >>= λ workloads.
      prepare_before_cordon env opts ctx workloads >>= λ prepared.
      begin_cordoned_drain env opts ctx node >>= λ cordoned_by_us.
      try_catch (drain_cordoned ctx prepared) pure (clean_up cordoned_by_us)
