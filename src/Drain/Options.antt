-- ===== src/Drain/Options.antt =====
-- The options of pkg/drain/drain.go, and the durations with defaults of pkg/drain/timeouts.go.
use k8s_safed.Base.{ℕ, String, Bool, List, ◌*◌, if◌then◌else◌}
use k8s_safed.Base.Int.{ℤ, pos, int_ltb}
use k8s_safed.Base.Maps.{Map}
use k8s_safed.Cluster.Objects.{Duration}

pub data PreflightMode : Type 0 where
  warn strict off : PreflightMode

-- `coordinated` is whether WorkloadCoordinator is set. Client, Out and Clock are not here: the
-- client is the environment, and what is printed is not modelled.
pub record Options : Type 0 where
  pub node_name : String
  pub dry_run : Bool
  pub timeout : Duration
  pub skip_daemon_sets : Bool
  pub delete_empty_dir : Bool
  pub grace_period : ℤ
  pub rollout_timeout : Duration
  pub force : Bool
  pub force_delete_standalone : Bool
  pub poll_interval : Duration
  pub pod_vacate_timeout : Duration
  pub eviction_timeout : Duration
  pub pdb_retry_interval : Duration
  pub max_concurrency : ℤ
  pub uncordon_on_failure : Bool
  pub preflight : PreflightMode
  pub stateful_name_patterns : List String
  pub skip_workloads : Map Bool
  pub only_workloads : Map Bool
  pub emit_events : Bool
  pub resume : Bool
  pub checkpoint_path : String
  pub checkpoint_context : String
  pub coordinated : Bool

-- `n * time.Second`
abbrev pub seconds : ℕ → Duration
seconds n = pos (n * 1_000_000_000)

abbrev or_fallback : Duration → Duration → Duration
or_fallback d fallback = if int_ltb (pos 0) d then d else fallback

unfoldable pub poll_interval : Options → Duration
poll_interval o = or_fallback o.poll_interval (seconds 5)

unfoldable pub pod_vacate_timeout : Options → Duration
pod_vacate_timeout o = or_fallback o.pod_vacate_timeout (seconds 120)

unfoldable pub eviction_timeout : Options → Duration
eviction_timeout o = or_fallback o.eviction_timeout (seconds 300)

unfoldable pub pdb_retry_interval : Options → Duration
pdb_retry_interval o = or_fallback o.pdb_retry_interval (seconds 5)
