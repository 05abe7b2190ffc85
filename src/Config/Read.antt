-- ===== src/Config/Read.antt =====
-- `Load` of pkg/config/config.go. The profiles are decoded field by field.
use k8s_safed.Base.{String, Option, none, some, [], ◌∷◌}
use k8s_safed.Base.Maps.{Map, lookup}
use k8s_safed.Cluster.Objects.{Duration}
use k8s_safed.Cluster.Env.{Result, ok}
use k8s_safed.Config.{
  Json, null, and_then, in_words, unmarshal_duration, unmarshal_preflight, Profile, RawProfile,
  Config, RawConfig, Machine,
}

module _ (m : Machine) where
  -- A pointer, which a null leaves nil.
  unfoldable pub decode_pointer : Option Json → Result (Option Duration)
  decode_pointer none = ok none
  decode_pointer (some null) = ok none
  decode_pointer (some j) = and_then (unmarshal_duration m.parse_duration j) (λ d. ok (some d))

  unfoldable pub decode_mode : Option Json → Result String
  decode_mode none = ok ""
  decode_mode (some j) = unmarshal_preflight j

  unfoldable pub decode_profile : RawProfile → Result Profile
  decode_profile raw =
      let read = λ (key : String). decode_pointer (lookup key raw.durations) in
      and_then (read "timeout") λ timeout. and_then (read "rollout-timeout") λ rollout_timeout.
        and_then (read "pod-vacate-timeout") λ pod_vacate_timeout.
          and_then (read "eviction-timeout") λ eviction_timeout.
            and_then (read "pdb-retry-interval") λ pdb_retry_interval.
              and_then (read "poll-interval") λ poll_interval.
                and_then (decode_mode raw.preflight) λ preflight. ok (record raw.plain {
                  timeout = timeout;
                  rollout_timeout = rollout_timeout;
                  pod_vacate_timeout = pod_vacate_timeout;
                  eviction_timeout = eviction_timeout;
                  pdb_retry_interval = pdb_retry_interval;
                  poll_interval = poll_interval;
                  preflight = preflight;
                })

  unfoldable pub decode_profiles : Map RawProfile → Result (Map Profile)
  decode_profiles [] = ok []
  decode_profiles ((name, raw) ∷ raws) =
      and_then (decode_profile raw) λ p. and_then (decode_profiles raws) λ ps. ok ((name, p) ∷ ps)

  unfoldable pub decode_config : RawConfig → Result Config
  decode_config raw = and_then (decode_profile raw.defaults) λ defaults.
      and_then (decode_profiles raw.profiles)
        λ profiles. ok (record { defaults = defaults; profiles = profiles })

  unfoldable pub load : String → Result Config
  load path =
      and_then (in_words "reading config file" (m.read_file path))
        λ content. in_words "parsing config file" (and_then content decode_config)
