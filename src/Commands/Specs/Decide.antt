-- ===== src/Commands/Specs/Decide.antt =====
-- Which flags decide what the configuration may set.
use k8s_safed.Base.{◌≡◌, refl, ap, inl, inr, String, Option, none, some, All, Option-cases}
use k8s_safed.Base.Maps.{lookup}
use k8s_safed.Cluster.Env.{Result, ok, err}
use k8s_safed.Config.{Profile, Config, Machine, get_profile}
use k8s_safed.App.{AppOptions}
use k8s_safed.App.Layers.{
  FlagChanged, or_unchanged, override, text_value, apply_profile_values, built_in_drain_modes,
}
use k8s_safed.App.Configure.{
  Configured, and_apply, load_config, apply_defaults, apply_mode, apply_found, apply_profile,
  apply_loaded, apply_config,
}
use k8s_safed.Commands.Specs.{config_flags, drain_option_specs}

module _ (one two : FlagChanged) (same : All (λ flag. one flag ≡ two flag) config_flags) where
  override-same :
      {A : Type 0} (flag : String) (value : Option A) (old : A)
      → one flag ≡ two flag
      → override one flag value old ≡ override two flag value old
  unfolding override
  override-same flag none old h = refl
  override-same flag (some v) old h = rw h refl

  apply_profile_values-same :
      (o : AppOptions) (p : Profile) → apply_profile_values o one p ≡ apply_profile_values o two p
  unfolding apply_profile_values config_flags drain_option_specs
  apply_profile_values-same o p =
      rw
        (
          override-same "timeout" p.timeout o.timeout same.1.0,
          override-same "rollout-timeout" p.rollout_timeout o.rollout_timeout same.1.1.1.1.0,
          override-same "pod-vacate-timeout" p.pod_vacate_timeout o.pod_vacate_timeout
              same.1.1.1.1.1.0,
          override-same "eviction-timeout" p.eviction_timeout o.eviction_timeout same.1.1.1.1.1.1.0,
          override-same "pdb-retry-interval" p.pdb_retry_interval o.pdb_retry_interval
              same.1.1.1.1.1.1.1.0,
          override-same "poll-interval" p.poll_interval o.poll_interval same.1.1.1.1.1.1.1.1.0,
          override-same "max-concurrency" p.max_concurrency o.max_concurrency
              same.1.1.1.1.1.1.1.1.1.1.1.0,
          override-same "node-concurrency" p.node_concurrency o.node_concurrency
              same.1.1.1.1.1.1.1.1.1.1.1.1.1.1.0,
          override-same "preflight" (text_value p.preflight) o.preflight
              same.1.1.1.1.1.1.1.1.1.1.1.1.1.1.1.0,
          override-same "log-format" (text_value p.log_format) o.log_format
              same.1.1.1.1.1.1.1.1.1.1.1.1.0,
          override-same "dry-run" p.dry_run o.dry_run same.0,
          override-same "force" p.force o.force same.1.1.1.1.1.1.1.1.1.0,
          override-same "ignore-daemonsets" p.ignore_daemon_sets o.skip_daemon_sets same.1.1.0,
          override-same "delete-emptydir-data" p.delete_empty_dir o.delete_empty_dir same.1.1.1.0,
          override-same "force-delete-standalone" p.force_delete_standalone
              o.force_delete_standalone same.1.1.1.1.1.1.1.1.1.1.0,
          override-same "uncordon-on-failure" p.uncordon_on_failure o.uncordon_on_failure
              same.1.1.1.1.1.1.1.1.1.1.1.1.1.0,
          override-same "emit-events" p.emit_events o.emit_events
              same.1.1.1.1.1.1.1.1.1.1.1.1.1.1.1.1.1.0,
        )
        refl

  apply_defaults-same :
      (cfg : Option Config) (o : AppOptions) → apply_defaults one cfg o ≡ apply_defaults two cfg o
  unfolding apply_defaults
  apply_defaults-same none o = refl
  apply_defaults-same (some cfg) o = apply_profile_values-same o cfg.defaults

  apply_mode-same : (o : AppOptions) → apply_mode one o ≡ apply_mode two o
  unfolding apply_mode
  apply_mode-same o = elim (Option-cases (lookup o.mode built_in_drain_modes)) [
    | inl unknown ↦ rw unknown refl
    | inr (p, known) ↦ rw (known, apply_profile_values-same o p) refl
  ]

  apply_found-same :
      (o : AppOptions) (r : Result Profile) → apply_found one o r ≡ apply_found two o r
  unfolding apply_found
  apply_found-same o (err e) = refl
  apply_found-same o (ok p) = ap (λ o'. (ok tt, o')) (apply_profile_values-same o p)

  apply_profile-same :
      (cfg : Option Config) (o : AppOptions) → apply_profile one cfg o ≡ apply_profile two cfg o
  unfolding apply_profile
  apply_profile-same none o = refl
  apply_profile-same (some cfg) o = rw (apply_found-same o (get_profile cfg o.profile)) refl

  and_apply-same :
      (c : Configured) (f g : AppOptions → Configured)
      → ((o : AppOptions) → f o ≡ g o)
      → and_apply c f ≡ and_apply c g
  and_apply-same (ok done, o) f g h = h o
  and_apply-same (err e, o) f g h = refl

  apply_loaded-same :
      (o : AppOptions) (r : Result (Option Config)) → apply_loaded one o r ≡ apply_loaded two o r
  unfolding apply_loaded
  apply_loaded-same o (err e) = refl
  apply_loaded-same o (ok cfg) =
      rw (apply_defaults-same cfg o, apply_mode-same (apply_defaults two cfg o))
        (and_apply-same _ _ _ (apply_profile-same cfg))

-- What `apply_config` does depends on the flags with a ConfigKey in the table of the options only:
-- whether any other flag was set, the hidden --skip-daemon-sets too, makes no difference.
pub apply_config-same :
    (m : Machine) (o : AppOptions) (one two : FlagChanged)
    → All (λ flag. one flag ≡ two flag) config_flags
    → apply_config m o (some one) ≡ apply_config m o (some two)
unfolding apply_config or_unchanged
apply_config-same m o one two same = apply_loaded-same one two same o (load_config m o)
