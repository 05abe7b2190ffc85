-- ===== src/App/Valid.antt =====
-- What validated options promise to the drainer of a node.
use k8s_safed.Base.{◌≡◌, refl, String, Bool, true, List, [], ◌∷◌, ◌||◌, ◌==◌, any, arith, eq_iff}
use k8s_safed.Base.Int.{pos, negsuc, ◌≤ℤ◌}
use k8s_safed.Base.Maps.{Map, lookup, insert, get_flag, lookup-insert}
use k8s_safed.Cluster.Env.{ok}
use k8s_safed.Workload.{Workload, workload_key}
use k8s_safed.Drain.Options.{Options, PreflightMode, warn, strict, off}
use k8s_safed.App.{
  AppOptions, preflight_mode, insert_all, slice_to_set, is_preflight_mode, check_durations,
  validate_options, drainer_options,
}

abbrev pub mode_text : PreflightMode → String
mode_text warn = "warn"
mode_text strict = "strict"
mode_text off = "off"

-- Options that a drainer can be made with.
pub record IsValidDrain (o : AppOptions) (d : Options) : Type 0 where
  pub mode : mode_text d.preflight ≡ o.preflight
  pub max_concurrency : pos 0 ≤ℤ d.max_concurrency
  pub grace_period : negsuc 0 ≤ℤ d.grace_period
  pub timeout : pos 0 ≤ℤ d.timeout
  pub rollout_timeout : pos 0 ≤ℤ d.rollout_timeout
  pub pod_vacate_timeout : pos 0 ≤ℤ d.pod_vacate_timeout
  pub eviction_timeout : pos 0 ≤ℤ d.eviction_timeout
  pub pdb_retry_interval : pos 0 ≤ℤ d.pdb_retry_interval
  pub poll_interval : pos 0 ≤ℤ d.poll_interval
  pub forced : d.force_delete_standalone ≡ true → d.force ≡ true
  pub skips :
      (w : Workload)
      → get_flag (workload_key w) d.skip_workloads ≡ any (λ s. s == workload_key w) o.skip_workloads
  pub only :
      (w : Workload)
      → get_flag (workload_key w) d.only_workloads ≡ any (λ s. s == workload_key w) o.only_workloads

get_flag-insert_all :
    (k : String) (m : Map Bool) (ss : List String)
    → get_flag k (insert_all m ss) ≡ any (λ s. s == k) ss || get_flag k m
unfolding insert_all get_flag
get_flag-insert_all k m [] = refl
get_flag-insert_all k m (s ∷ ss) =
    ground (arith, get_flag-insert_all k (insert s true m) ss, lookup-insert s k true m)

get_flag-slice_to_set :
    (k : String) (ss : List String) → get_flag k (slice_to_set ss) ≡ any (λ s. s == k) ss
unfolding slice_to_set get_flag lookup
get_flag-slice_to_set k ss = ground (arith, get_flag-insert_all k [] ss)

preflight_mode-mode_text :
    (text : String) → is_preflight_mode text ≡ true → mode_text (preflight_mode text) ≡ text
unfolding is_preflight_mode preflight_mode
preflight_mode-mode_text text h =
    ground (arith, eq_iff text "warn", eq_iff text "strict", eq_iff text "off")

-- When the options are valid, the options that a node's drainer is made with have the preflight
-- mode that was asked for, no negative limit, duration or concurrency, a grace period of -1 at
-- least, and Force wherever ForceDeleteStandalone is; and their two sets of workloads hold exactly
-- the names that were given.
pub drainer_options-IsValidDrain :
    (o : AppOptions) (nodes : List String) (kube_context node_name checkpoint_path : String)
    → validate_options o ≡ ok tt
    → IsValidDrain o (drainer_options o nodes kube_context node_name checkpoint_path)
unfolding validate_options check_durations drainer_options
drainer_options-IsValidDrain o nodes kube_context node_name checkpoint_path h = record {
  mode = preflight_mode-mode_text o.preflight (ground arith);
  max_concurrency = ground arith;
  grace_period = ground arith;
  timeout = ground arith;
  rollout_timeout = ground arith;
  pod_vacate_timeout = ground arith;
  eviction_timeout = ground arith;
  pdb_retry_interval = ground arith;
  poll_interval = ground arith;
  forced = λ e. ground arith;
  skips = λ w. get_flag-slice_to_set (workload_key w) o.skip_workloads;
  only = λ w. get_flag-slice_to_set (workload_key w) o.only_workloads;
}
