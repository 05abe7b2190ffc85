-- ===== src/App/Configure/Sources.antt =====
-- Which layers `apply_config` puts over the options.
use k8s_safed.Base.{
  ◌≡◌, refl, sym, ap, subst, ◌∙◌, inl, inr, String, Option, none, some, List, [], ◌∷◌, ◌++◌, ◌==◌,
  Bool-cases, Option-cases, arith, eq_iff,
}
use k8s_safed.Base.Maps.{lookup}
use k8s_safed.Cluster.Env.{Result, ok, err}
use k8s_safed.Config.{Profile, Config, Machine, get_profile}
use k8s_safed.App.{AppOptions}
use k8s_safed.App.Layers.{FlagChanged, or_unchanged, built_in_drain_modes}
use k8s_safed.App.Layers.Order.{IsLayered, apply_layers, apply_layers-IsLayered}
use k8s_safed.App.Configure.{
  Configured, and_apply, load_config, apply_defaults, apply_mode, apply_found, apply_profile,
  apply_loaded, apply_config,
}

-- The layer of a name: none for the empty one, else what the name stands for.
abbrev pub IsNamed : (String → Profile → Type 0) → String → List Profile → Type 0
IsNamed Means name [] = name ≡ ""
IsNamed Means name (p ∷ []) = Means name p
IsNamed Means name (p ∷ q ∷ ps) = ⊥

abbrev pub defaults_of : Option Config → List Profile
defaults_of none = []
defaults_of (some cfg) = cfg.defaults ∷ []

abbrev pub IsMode : String → Profile → Type 0
IsMode name p = lookup name built_in_drain_modes ≡ some p

abbrev pub IsProfile : Option Config → String → Profile → Type 0
IsProfile none name p = ⊥
IsProfile (some cfg) name p = get_profile cfg name ≡ ok p

-- The defaults of the configuration, then the mode, then the profile.
pub record IsOrdered (m : Machine) (o : AppOptions) (layers : List Profile) : Type 0 where
  pub config : Option Config
  pub loaded : load_config m o ≡ ok config
  pub modes : List Profile
  pub mode : IsNamed IsMode o.mode modes
  pub profiles : List Profile
  pub profile : IsNamed (IsProfile config) o.profile profiles
  pub in_order : layers ≡ defaults_of config ++ (modes ++ profiles)

module _ (changed : FlagChanged) where
  -- What a part of `apply_config` does: layers, which fit when it succeeds.
  pub record Applies (Fits : List Profile → Type 0) (o : AppOptions) (c : Configured) : Type 0 where
    pub layers : List Profile
    pub result : c.1 ≡ apply_layers changed layers o
    pub fits : c.0 ≡ ok tt → Fits layers

  Applies-none :
      (Fits : List Profile → Type 0) (o : AppOptions) → Fits [] → Applies Fits o (ok tt, o)
  unfolding apply_layers
  Applies-none Fits o h = record { layers = []; result = refl; fits = λ e. h }

  apply_mode-Applies : (o : AppOptions) → Applies (IsNamed IsMode o.mode) o (apply_mode changed o)
  unfolding apply_mode apply_layers
  apply_mode-Applies o = elim (Bool-cases (o.mode == "")) [
    | inl bare ↦ rw bare (Applies-none (IsNamed IsMode o.mode) o ((eq_iff o.mode "").0 bare))
    | inr given ↦ elim (Option-cases (lookup o.mode built_in_drain_modes)) [
      | inl unknown ↦
          rw (given, unknown)
            (record { layers = []; result = refl; fits = λ e. absurd (ground arith) })
      | inr (p, known) ↦
          rw (given, known) (record { layers = p ∷ []; result = refl; fits = λ e. known })
    ]
  ]

  apply_layers-append :
      (first second : List Profile) (o : AppOptions)
      → apply_layers changed (first ++ second) o
        ≡ apply_layers changed second (apply_layers changed first o)
  unfolding apply_layers
  apply_layers-append [] second o = refl
  apply_layers-append (p ∷ first) second o = apply_layers-append first second _

  apply_found-Applies :
      (cfg : Config) (o : AppOptions) (r : Result Profile)
      → get_profile cfg o.profile ≡ r
      → Applies (IsNamed (IsProfile (some cfg)) o.profile) o (apply_found changed o r)
  unfolding apply_found apply_layers
  apply_found-Applies cfg o (err e) h = record {
    layers = [];
    result = refl;
    fits = λ e. absurd (ground arith);
  }
  apply_found-Applies cfg o (ok p) h = record { layers = p ∷ []; result = refl; fits = λ e. h }

  apply_profile-Applies :
      (config : Option Config) (o : AppOptions)
      → Applies (IsNamed (IsProfile config) o.profile) o (apply_profile changed config o)
  unfolding apply_profile apply_layers
  apply_profile-Applies none o = elim (Bool-cases (o.profile == "")) [
    | inl bare ↦ rw bare (Applies-none _ o ((eq_iff o.profile "").0 bare))
    | inr given ↦
        rw given (record { layers = []; result = refl; fits = λ e. absurd (ground arith) })
  ]
  apply_profile-Applies (some cfg) o = elim (Bool-cases (o.profile == "")) [
    | inl bare ↦ rw bare (Applies-none _ o ((eq_iff o.profile "").0 bare))
    | inr given ↦ rw given (apply_found-Applies cfg o _ refl)
  ]

  and_apply-Applies :
      (First Second Both : List Profile → Type 0) (o : AppOptions) (c : Configured)
      (f : AppOptions → Configured)
      → Applies First o c
      → Applies Second c.1 (f c.1)
      → ((l k : List Profile) → First l → Second k → Both (l ++ k))
      → Applies Both o (and_apply c f)
  and_apply-Applies First Second Both o (err e, o') f first second join = record {
    layers = first.layers;
    result = first.result;
    fits = λ e. absurd (ground arith);
  }
  and_apply-Applies First Second Both o (ok done, o') f first second join = record {
    layers = first.layers ++ second.layers;
    result =
        second.result
        ∙ ap (apply_layers changed second.layers) first.result
        ∙ sym (apply_layers-append first.layers second.layers o);
    fits = λ e. join _ _ (first.fits refl) (second.fits e);
  }

  apply_defaults-layers :
      (config : Option Config) (o : AppOptions)
      → apply_defaults changed config o ≡ apply_layers changed (defaults_of config) o
  unfolding apply_defaults apply_layers
  apply_defaults-layers none o = refl
  apply_defaults-layers (some cfg) o = refl

  apply_loaded-Applies :
      (m : Machine) (o : AppOptions) (r : Result (Option Config))
      → load_config m o ≡ r
      → Applies (IsOrdered m o) o (apply_loaded changed o r)
  unfolding apply_loaded apply_layers
  apply_loaded-Applies m o (err e) h = record {
    layers = [];
    result = refl;
    fits = λ e. absurd (ground arith);
  }
  apply_loaded-Applies m o (ok config) h =
      let o' = apply_defaults changed config o in
      let c = apply_mode changed o' in
      let modes = apply_mode-Applies o' in
      let below = apply_defaults-layers config o in
      let same_mode : o'.mode ≡ o.mode =
        ap (λ q. q.mode) below ∙ (apply_layers-IsLayered changed (defaults_of config) o).mode in
      let same_profile : c.1.profile ≡ o.profile =
        ap (λ q. q.profile) (modes.result ∙ ap (apply_layers changed modes.layers) below)
        ∙ (apply_layers-IsLayered changed modes.layers _).profile
        ∙ (apply_layers-IsLayered changed (defaults_of config) o).profile in
      let both =
        and_apply-Applies (IsNamed IsMode o'.mode) (IsNamed (IsProfile config) c.1.profile)
          (λ l. IsOrdered m o (defaults_of config ++ l)) o' c (apply_profile changed config) modes
          (apply_profile-Applies config c.1)
          (λ l k hl hk. record {
            config = config;
            loaded = h;
            modes = l;
            mode = subst (λ n. IsNamed IsMode n l) same_mode hl;
            profiles = k;
            profile = subst (λ n. IsNamed (IsProfile config) n k) same_profile hk;
            in_order = refl;
          }) in
      record {
        layers = defaults_of config ++ both.layers;
        result =
            both.result
            ∙ ap (apply_layers changed both.layers) below
            ∙ sym (apply_layers-append (defaults_of config) both.layers o);
        fits = both.fits;
      }

  pub apply_config-Applies :
      (m : Machine) (o : AppOptions)
      → Applies (IsOrdered m o) o (apply_loaded changed o (load_config m o))
  apply_config-Applies m o = apply_loaded-Applies m o _ refl

-- Layers in their order over the options.
abbrev pub HasLayers : Machine → FlagChanged → AppOptions → AppOptions → Type 0
HasLayers m changed o o' =
    (layers : List Profile) × (IsOrdered m o layers × IsLayered changed layers o o')

-- When `apply_config` succeeds, the options are those it was given with layers over them, which are
-- the defaults of the configuration file, if there is one, then the mode's, then the profile's: an
-- option whose flag was set keeps the flag's value, any other has the value of the last layer that
-- sets it, the name patterns of all layers are added, and all else stays.
pub apply_config-IsLayered :
    (m : Machine) (o o' : AppOptions) (changed : Option FlagChanged)
    → apply_config m o changed ≡ (ok tt, o')
    → HasLayers m (or_unchanged changed) o o'
unfolding apply_config
apply_config-IsLayered m o o' changed h =
    let a = apply_config-Applies (or_unchanged changed) m o in
    (
      a.layers,
      (
        a.fits (ap (λ c. c.0) h),
        subst (IsLayered (or_unchanged changed) a.layers o) (sym a.result ∙ ap (λ c. c.1) h)
            (apply_layers-IsLayered (or_unchanged changed) a.layers o),
      ),
    )
