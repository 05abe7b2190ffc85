-- ===== src/App/Layers/Modes.antt =====
-- The built-in modes keep valid options valid.
use k8s_safed.Base.{
  ◌≡◌, refl, subst, String, Bool, true, false, Option, none, some, [], ◌∷◌, ◌==◌, not, Bool-cases,
  inl, inr, arith, All,
}
use k8s_safed.Base.Int.{ℤ, pos, negsuc, int_ltb}
use k8s_safed.Base.Maps.{Map, lookup}
use k8s_safed.Cluster.Env.{ok}
use k8s_safed.Config.{Profile}
use k8s_safed.App.{AppOptions, is_preflight_mode, is_log_format, check_durations, validate_options}
use k8s_safed.App.Layers.{
  FlagChanged, override, text_value, apply_profile_values, built_in_drain_modes,
}

abbrev pub nonnegative : ℤ → Bool
nonnegative v = not (int_ltb v (pos 0))

-- A value that is set passes the test.
abbrev pub Passes : {A : Type 0} → (A → Bool) → Option A → Type 0
Passes test none = Unit
Passes test (some v) = test v ≡ true

-- What a profile sets is valid.
pub record IsValidProfile (p : Profile) : Type 0 where
  pub preflight : Passes is_preflight_mode (text_value p.preflight)
  pub log_format : Passes is_log_format (text_value p.log_format)
  pub max_concurrency : Passes nonnegative p.max_concurrency
  pub node_concurrency : Passes nonnegative p.node_concurrency
  pub timeout : Passes nonnegative p.timeout
  pub rollout_timeout : Passes nonnegative p.rollout_timeout
  pub pod_vacate_timeout : Passes nonnegative p.pod_vacate_timeout
  pub eviction_timeout : Passes nonnegative p.eviction_timeout
  pub pdb_retry_interval : Passes nonnegative p.pdb_retry_interval
  pub poll_interval : Passes nonnegative p.poll_interval

-- What `validate_options` tests.
record Passed (o : AppOptions) : Type 0 where
  preflight : is_preflight_mode o.preflight ≡ true
  log_format : is_log_format o.log_format ≡ true
  grace_period : int_ltb o.grace_period (negsuc 0) ≡ false
  max_concurrency : nonnegative o.max_concurrency ≡ true
  node_concurrency : nonnegative o.node_concurrency ≡ true
  timeout : nonnegative o.timeout ≡ true
  rollout_timeout : nonnegative o.rollout_timeout ≡ true
  pod_vacate_timeout : nonnegative o.pod_vacate_timeout ≡ true
  eviction_timeout : nonnegative o.eviction_timeout ≡ true
  pdb_retry_interval : nonnegative o.pdb_retry_interval ≡ true
  poll_interval : nonnegative o.poll_interval ≡ true

Passed-validate_options : (o : AppOptions) → validate_options o ≡ ok tt → Passed o
unfolding validate_options check_durations
Passed-validate_options o h = record {
  preflight = ground arith;
  log_format = ground arith;
  grace_period = ground arith;
  max_concurrency = ground arith;
  node_concurrency = ground arith;
  timeout = ground arith;
  rollout_timeout = ground arith;
  pod_vacate_timeout = ground arith;
  eviction_timeout = ground arith;
  pdb_retry_interval = ground arith;
  poll_interval = ground arith;
}

validate_options-Passed : (o : AppOptions) → Passed o → validate_options o ≡ ok tt
unfolding validate_options check_durations
validate_options-Passed o h = ground arith

override-Passes :
    {A : Type 0} (test : A → Bool) (changed : FlagChanged) (flag : String) (value : Option A)
    (old : A)
    → Passes test value
    → test old ≡ true
    → test (override changed flag value old) ≡ true
unfolding override
override-Passes test changed flag none old new h = h
override-Passes test changed flag (some v) old new h = elim (Bool-cases (changed flag)) [
  | inl given ↦ rw given h
  | inr free ↦ rw free new
]

-- A profile whose values are valid keeps valid options valid.
apply_profile_values-Passed :
    (o : AppOptions) (changed : FlagChanged) (p : Profile)
    → IsValidProfile p
    → Passed o
    → Passed (apply_profile_values o changed p)
unfolding apply_profile_values
apply_profile_values-Passed o changed p v h = record {
  preflight = override-Passes is_preflight_mode changed "preflight" _ _ v.preflight h.preflight;
  log_format = override-Passes is_log_format changed "log-format" _ _ v.log_format h.log_format;
  grace_period = h.grace_period;
  max_concurrency =
      override-Passes nonnegative changed "max-concurrency" p.max_concurrency _ v.max_concurrency
        h.max_concurrency;
  node_concurrency =
      override-Passes nonnegative changed "node-concurrency" p.node_concurrency _ v.node_concurrency
        h.node_concurrency;
  timeout = override-Passes nonnegative changed "timeout" p.timeout _ v.timeout h.timeout;
  rollout_timeout =
      override-Passes nonnegative changed "rollout-timeout" p.rollout_timeout _ v.rollout_timeout
        h.rollout_timeout;
  pod_vacate_timeout =
      override-Passes nonnegative changed "pod-vacate-timeout" p.pod_vacate_timeout _
        v.pod_vacate_timeout h.pod_vacate_timeout;
  eviction_timeout =
      override-Passes nonnegative changed "eviction-timeout" p.eviction_timeout _ v.eviction_timeout
        h.eviction_timeout;
  pdb_retry_interval =
      override-Passes nonnegative changed "pdb-retry-interval" p.pdb_retry_interval _
        v.pdb_retry_interval h.pdb_retry_interval;
  poll_interval =
      override-Passes nonnegative changed "poll-interval" p.poll_interval _ v.poll_interval
        h.poll_interval;
}

lookup-All :
    (P : Profile → Type 0) (name : String) (m : Map Profile) {p : Profile}
    → All (λ e. P e.1) m
    → lookup name m ≡ some p
    → P p
unfolding lookup
lookup-All P name [] h e = absurd (ground arith)
lookup-All P name ((j, q) ∷ m) {p} h e = elim (Bool-cases (j == name)) [
  | inl here ↦ subst P (ground arith) h.0
  | inr there ↦ lookup-All P name m h.1 (ground arith)
]

built_in_drain_modes-IsValidProfile : All (λ e. IsValidProfile e.1) built_in_drain_modes
unfolding built_in_drain_modes is_preflight_mode is_log_format text_value
built_in_drain_modes-IsValidProfile = (
  record {
    preflight = refl;
    log_format = tt;
    max_concurrency = refl;
    node_concurrency = refl;
    timeout = refl;
    rollout_timeout = tt;
    pod_vacate_timeout = tt;
    eviction_timeout = tt;
    pdb_retry_interval = tt;
    poll_interval = tt;
  },
  (
    record {
      preflight = refl;
      log_format = tt;
      max_concurrency = refl;
      node_concurrency = refl;
      timeout = tt;
      rollout_timeout = refl;
      pod_vacate_timeout = refl;
      eviction_timeout = refl;
      pdb_retry_interval = tt;
      poll_interval = tt;
    },
    (
      record {
        preflight = refl;
        log_format = tt;
        max_concurrency = tt;
        node_concurrency = tt;
        timeout = refl;
        rollout_timeout = tt;
        pod_vacate_timeout = tt;
        eviction_timeout = tt;
        pdb_retry_interval = tt;
        poll_interval = refl;
      },
      tt,
    ),
  ),
)

-- A built-in mode over options that are valid, whichever flags were set, leaves them valid.
pub modes_keep_valid :
    (o : AppOptions) (changed : FlagChanged) (name : String) (p : Profile)
    → lookup name built_in_drain_modes ≡ some p
    → validate_options o ≡ ok tt
    → validate_options (apply_profile_values o changed p) ≡ ok tt
modes_keep_valid o changed name p found valid = validate_options-Passed _ (
    apply_profile_values-Passed o changed p
      (lookup-All IsValidProfile name built_in_drain_modes built_in_drain_modes-IsValidProfile
        found)
      (Passed-validate_options o valid))
