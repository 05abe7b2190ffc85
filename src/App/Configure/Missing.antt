-- ===== src/App/Configure/Missing.antt =====
-- A configuration file that does not exist.
use k8s_safed.Base.{
  ◌≡◌, ◌≢◌, ◌⊎◌, inl, inr, refl, sym, ap, ◌∙◌, ◌==◌, Bool-cases, Option-cases, String, Option, none,
  arith, eq_iff,
}
use k8s_safed.Base.Maps.{lookup}
use k8s_safed.Cluster.Env.{Error, ok, err, not_exist, wrap}
use k8s_safed.Config.{Machine}
use k8s_safed.Config.Read.{load}
use k8s_safed.App.{AppOptions}
use k8s_safed.App.Layers.{apply_profile_values, FlagChanged, or_unchanged, built_in_drain_modes}
use k8s_safed.App.Configure.{
  Configured, explicit_config, env_config, config_path, without_file, loaded_or_none, load_config,
  apply_defaults, apply_mode, apply_profile, apply_loaded, apply_config,
}

-- The error of `load` for a path where there is no file.
abbrev pub missing : Error
missing = wrap "reading config file" not_exist

load-missing :
    (m : Machine) (path : String) → m.read_file path ≡ err not_exist → load m path ≡ err missing
unfolding load
load-missing m path h = rw h refl

-- Whether somebody asked for a configuration file.
abbrev pub IsAsked : Machine → AppOptions → Type 0
IsAsked m o = (o.config_file ≢ "") ⊎ ((m.config_variable ≢ "") ⊎ (o.profile ≢ ""))

without_file-asked :
    (m : Machine) (o : AppOptions) → IsAsked m o → without_file m o missing ≡ err missing
unfolding without_file explicit_config env_config
without_file-asked m o h =
    ground (arith, eq_iff o.config_file "", eq_iff m.config_variable "", eq_iff o.profile "")

without_file-default :
    (m : Machine) (o : AppOptions)
    → o.config_file ≡ ""
    → m.config_variable ≡ ""
    → o.profile ≡ ""
    → without_file m o missing ≡ ok none
unfolding without_file explicit_config env_config
without_file-default m o h k l = rw (h, k, l) refl

apply_mode-not_missing :
    (changed : FlagChanged) (o : AppOptions) → (apply_mode changed o).0 ≢ err missing
unfolding apply_mode
apply_mode-not_missing changed o e = elim (Bool-cases (o.mode == "")) [
  | inl plain ↦ ground arith
  | inr named ↦ elim (Option-cases (lookup o.mode built_in_drain_modes)) [
    | inl unknown ↦ ground arith
    | inr (p, known) ↦ ground arith
  ]
]

-- What happens without the file: its absence is the error, and nothing changes; or all that is done
-- is to apply the mode, which fails with another error if at all.
abbrev pub WithoutFile : Machine → AppOptions → FlagChanged → Configured → Type 0
WithoutFile m o changed result =
    (IsAsked m o × (result ≡ (err missing, o)))
    ⊎ ((¬ (IsAsked m o)) × ((result ≡ apply_mode changed o) × (result.0 ≢ err missing)))

IsAsked-empty :
    (m : Machine) (o : AppOptions)
    → o.config_file ≡ ""
    → m.config_variable ≡ ""
    → o.profile ≡ ""
    → ¬ (IsAsked m o)
IsAsked-empty m o h k l (inl asked) = asked h
IsAsked-empty m o h k l (inr (inl asked)) = asked k
IsAsked-empty m o h k l (inr (inr asked)) = asked l

empty_or_not : (s : String) → (s ≡ "") ⊎ (s ≢ "")
empty_or_not s = elim (Bool-cases (s == "")) [
  | inl e ↦ inl ((eq_iff s "").0 e)
  | inr n ↦ inr (λ e. ground (arith, (eq_iff s "").1 e))
]

IsAsked-or_empty :
    (m : Machine) (o : AppOptions)
    → IsAsked m o ⊎ ((o.config_file ≡ "") × ((m.config_variable ≡ "") × (o.profile ≡ "")))
IsAsked-or_empty m o = elim (empty_or_not o.config_file) [
  | inr a ↦ inl (inl a)
  | inl h ↦ elim (empty_or_not m.config_variable) [
    | inr a ↦ inl (inr (inl a))
    | inl k ↦ elim (empty_or_not o.profile) [ inr a ↦ inl (inr (inr a)) | inl l ↦ inr (h, (k, l)) ]
  ]
]

apply_mode_only :
    (changed : FlagChanged) (o : AppOptions)
    → o.profile ≡ ""
    → apply_loaded changed o (ok none) ≡ apply_mode changed o
unfolding apply_loaded apply_defaults apply_mode apply_profile apply_profile_values
apply_mode_only changed o unnamed = elim (Bool-cases (o.mode == "")) [
  | inl plain ↦ rw (plain, unnamed) refl
  | inr named ↦ elim (Option-cases (lookup o.mode built_in_drain_modes)) [
    | inl unknown ↦ rw (named, unknown) refl
    | inr (p, known) ↦ rw (named, known, unnamed) refl
  ]
]

-- When the configuration file does not exist, `apply_config` fails for that and changes nothing
-- exactly if --config, the variable or a profile asked for it. If none did, then it does what the
-- mode says and nothing else, as if there were no configuration.
pub apply_config-missing :
    (m : Machine) (o : AppOptions) (changed : Option FlagChanged) (path : String)
    → config_path m o ≡ ok path
    → m.read_file path ≡ err not_exist
    → WithoutFile m o (or_unchanged changed) (apply_config m o changed)
unfolding apply_config load_config loaded_or_none apply_loaded
apply_config-missing m o changed path found gone = elim (IsAsked-or_empty m o) [
  | inl asked ↦ inl (asked, rw (found, load-missing m path gone, without_file-asked m o asked) refl)
  | inr (plain, (unset, unnamed)) ↦
      let same : apply_config m o changed ≡ apply_mode (or_unchanged changed) o =
        rw (found, load-missing m path gone, without_file-default m o plain unset unnamed)
          (apply_mode_only (or_unchanged changed) o unnamed) in
      inr (
        IsAsked-empty m o plain unset unnamed,
        (same, λ e. apply_mode-not_missing _ o (sym (ap (λ (c : Configured). c.0) same) ∙ e)),
      )
]
