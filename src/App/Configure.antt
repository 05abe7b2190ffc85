-- ===== src/App/Configure.antt =====
-- `ApplyConfig` of internal/drainapp/app.go. It changes the options that it is given, also before
-- it fails.
pub mod Sources
pub mod Flags
pub mod Missing
use k8s_safed.Base.{
  String, Bool, true, false, Option, none, some, not, ◌&&◌, ◌||◌, ◌==◌, if◌then◌else◌,
}
use k8s_safed.Base.Maps.{lookup}
use k8s_safed.Cluster.Env.{Error, Result, ok, err, message, is_not_exist}
use k8s_safed.Config.{Profile, Config, Machine, and_then, get_profile, default_config_path}
use k8s_safed.Config.Read.{load}
use k8s_safed.App.{AppOptions}
use k8s_safed.App.Layers.{FlagChanged, or_unchanged, apply_profile_values, built_in_drain_modes}

abbrev pub Configured : Type 0
Configured = Result (Unit {0}) × AppOptions

-- `if err != nil { return err }`
abbrev pub and_apply : Configured → (AppOptions → Configured) → Configured
and_apply (ok done, opts) f = f opts
and_apply (err e, opts) f = (err e, opts)

unfoldable pub explicit_config : AppOptions → Bool
explicit_config opts = not (opts.config_file == "")

unfoldable pub env_config : Machine → AppOptions → Bool
env_config m opts = not (explicit_config opts) && not (m.config_variable == "")

unfoldable pub config_path : Machine → AppOptions → Result String
config_path m opts =
    if explicit_config opts
    then ok opts.config_file
    else if not (m.config_variable == "")
    then ok m.config_variable
    else default_config_path m

-- A file that nobody asked for may be missing.
unfoldable pub without_file : Machine → AppOptions → Error → Result (Option Config)
without_file m opts e =
    if not (is_not_exist e)
      || (explicit_config opts || (env_config m opts || not (opts.profile == "")))
    then err e
    else ok none

unfoldable pub loaded_or_none : Machine → AppOptions → Result Config → Result (Option Config)
loaded_or_none m opts (ok cfg) = ok (some cfg)
loaded_or_none m opts (err e) = without_file m opts e

unfoldable pub load_config : Machine → AppOptions → Result (Option Config)
load_config m opts = and_then (config_path m opts) λ path. loaded_or_none m opts (load m path)

module _ (changed : FlagChanged) where
  unfoldable pub apply_defaults : Option Config → AppOptions → AppOptions
  apply_defaults none opts = opts
  apply_defaults (some cfg) opts = apply_profile_values opts changed cfg.defaults

  unfoldable pub apply_mode : AppOptions → Configured
  apply_mode opts =
      if opts.mode == "" then (ok tt, opts) else elim (lookup opts.mode built_in_drain_modes) [
        | none ↦ (err (message "invalid --mode"), opts)
        | some mode ↦ (ok tt, apply_profile_values opts changed mode)
      ]

  unfoldable pub apply_found : AppOptions → Result Profile → Configured
  apply_found opts (err e) = (err e, opts)
  apply_found opts (ok prof) = (ok tt, apply_profile_values opts changed prof)

  unfoldable pub apply_profile : Option Config → AppOptions → Configured
  apply_profile none opts =
      if opts.profile == ""
      then (ok tt, opts)
      else (err (message "profile requested but config file was not loaded"), opts)
  apply_profile (some cfg) opts =
      if opts.profile == "" then (ok tt, opts) else apply_found opts (get_profile cfg opts.profile)

  unfoldable pub apply_loaded : AppOptions → Result (Option Config) → Configured
  apply_loaded opts (err e) = (err e, opts)
  apply_loaded opts (ok cfg) =
      and_apply (apply_mode (apply_defaults cfg opts)) λ opts'. apply_profile cfg opts'

unfoldable pub apply_config : Machine → AppOptions → Option FlagChanged → Configured
apply_config m opts changed = apply_loaded (or_unchanged changed) opts (load_config m opts)
