-- ===== src/App/Whole/Refused.antt =====
-- What the command refuses before it does anything.
use k8s_safed.Base.{◌≡◌, ◌≢◌, ◌⊎◌, inl, inr, refl, ◌<◌, String, Option, List, length, arith, eq_iff}
use k8s_safed.Cluster.Calls.{Context}
use k8s_safed.Cluster.Env.{Env, Error, Result, ok, err, message}
use k8s_safed.Cluster.Exec.{World, lift, ◌>>=◌}
use k8s_safed.Cluster.Poll.{Poller}
use k8s_safed.Config.{Machine}
use k8s_safed.App.{AppOptions, drainer_options, validate_options, validate_targets}
use k8s_safed.App.Valid.{IsValidDrain, drainer_options-IsValidDrain}
use k8s_safed.App.Layers.{FlagChanged}
use k8s_safed.App.Configure.{apply_config}
use k8s_safed.App.Whole.{KubeFlags, run_targets, run_configured, run_app}

module _ (env : Env) (poller : Poller) (m : Machine) (flags : KubeFlags) (ctx : Context)
    (node_args : List String) (opts : AppOptions) (changed : Option FlagChanged) (w : World) where
  -- The options as the configuration leaves them.
  abbrev pub configured_options : AppOptions
  configured_options = (apply_config m opts changed).1

  -- The command has failed, and no call was made.
  abbrev pub IsRefused : Type 0
  IsRefused = (e : Error) × (run_app env poller m flags ctx node_args opts changed w ≡ (err e, w))

  not_configured : (e : Error) → (apply_config m opts changed).0 ≡ err e → IsRefused
  unfolding run_app ◌>>=◌ lift
  not_configured e failed = (e, rw failed refl)

  not_valid :
      (e : Error)
      → (apply_config m opts changed).0 ≡ ok tt
      → validate_options configured_options ≡ err e
      → IsRefused
  unfolding run_app run_configured ◌>>=◌ lift
  not_valid e passed invalid = (e, rw (passed, invalid) refl)

  valid_or_refused :
      (r : Result Unit) (nodes : List String) (kube_context node_name checkpoint_path : String)
      → (apply_config m opts changed).0 ≡ ok tt
      → validate_options configured_options ≡ r
      → IsRefused
        ⊎ (((apply_config m opts changed).0 ≡ ok tt)
            × IsValidDrain configured_options
                (drainer_options configured_options nodes kube_context node_name checkpoint_path))
  valid_or_refused (err e) nodes k n path passed invalid = inl (not_valid e passed invalid)
  valid_or_refused (ok tt) nodes k n path passed valid =
      inr (passed, drainer_options-IsValidDrain configured_options nodes k n path valid)

  configured_or_refused :
      (c : Result Unit) (nodes : List String) (kube_context node_name checkpoint_path : String)
      → (apply_config m opts changed).0 ≡ c
      → IsRefused
        ⊎ (((apply_config m opts changed).0 ≡ ok tt)
            × IsValidDrain configured_options
                (drainer_options configured_options nodes kube_context node_name checkpoint_path))
  configured_or_refused (err e) nodes k n path failed = inl (not_configured e failed)
  configured_or_refused (ok tt) nodes k n path passed =
      valid_or_refused _ nodes k n path passed refl

-- Either the command fails before it has made any call, or its configuration has succeeded and the
-- options that this gave are such that a drainer made with them, for whatever node, is valid: its
-- preflight mode is the one asked for, no limit, duration or concurrency is negative, the grace
-- period is -1 at least, Force is set wherever ForceDeleteStandalone is, and the two sets of
-- workloads hold the names given. So with options that are not, no call is ever made.
pub run_app_refused :
    (env : Env) (poller : Poller) (m : Machine) (flags : KubeFlags) (ctx : Context)
    (node_args : List String) (opts : AppOptions) (changed : Option FlagChanged) (w : World)
    (nodes : List String) (kube_context node_name checkpoint_path : String)
    → let o = (apply_config m opts changed).1 in
      IsRefused env poller m flags ctx node_args opts changed w
      ⊎ (((apply_config m opts changed).0 ≡ ok tt)
          × IsValidDrain o (drainer_options o nodes kube_context node_name checkpoint_path))
run_app_refused env poller m flags ctx node_args opts changed w nodes k n path =
    configured_or_refused env poller m flags ctx node_args opts changed w _ nodes k n path refl

validate_targets-shared :
    (opts : AppOptions) (nodes : List String)
    → opts.checkpoint_path ≢ ""
    → 1 < length nodes
    → validate_targets opts nodes
      ≡ err (message "--checkpoint-path can only be used when draining a single node")
unfolding validate_targets
validate_targets-shared opts nodes given several = ground (arith, eq_iff opts.checkpoint_path "")

-- Several nodes never share a checkpoint file that was given: then nothing is done at all.
pub run_targets_shared :
    (env : Env) (poller : Poller) (m : Machine) (flags : KubeFlags) (ctx : Context)
    (opts : AppOptions) (nodes : List String) (w : World)
    → opts.checkpoint_path ≢ ""
    → 1 < length nodes
    → run_targets env poller m flags ctx opts nodes w
      ≡ (err (message "--checkpoint-path can only be used when draining a single node"), w)
unfolding run_targets ◌>>=◌ lift
run_targets_shared env poller m flags ctx opts nodes w given several =
    rw (validate_targets-shared opts nodes given several) refl
