-- ===== src/Config.antt =====
-- pkg/config/config.go: the configuration file. The YAML library turns the file into JSON and
-- checks the names and the types of its fields; the two types with an UnmarshalJSON of their own
-- get the value as JSON.
pub mod Read
use k8s_safed.Base.{
  ◌-◌, ◌^◌, String, Bool, true, false, Option, none, some, List, ◌&&◌, ◌==◌, if◌then◌else◌,
}
use k8s_safed.Base.Int.{ℤ, pos, negsuc, int_leb, int_ltb}
use k8s_safed.Base.Maps.{Map, lookup}
use k8s_safed.Base.Text.{append_text, slash2}
use k8s_safed.Cluster.Objects.{Duration}
use k8s_safed.Cluster.Env.{Error, Result, ok, err, message, wrap}

-- A value of JSON. A number that is not an integer, an array and an object are `other`.
module _ {A B : Type 0} where
  abbrev pub and_then : Result A → (A → Result B) → Result B
  and_then (ok a) f = f a
  and_then (err e) f = err e

-- `fmt.Errorf("…: %w", err)`
abbrev pub in_words : {A : Type 0} → String → Result A → Result A
in_words s (ok a) = ok a
in_words s (err e) = err (wrap s e)

pub data Json : Type 0 where
  null other : Json
  boolean : Bool → Json
  number : ℤ → Json
  text : String → Json

-- json.Unmarshal into a string, a bool and an int64; a null leaves the zero value.
unfoldable pub as_string : Json → Option String
as_string null = some ""
as_string (text s) = some s
as_string _ = none

unfoldable pub as_bool : Json → Option Bool
as_bool null = some false
as_bool (boolean b) = some b
as_bool _ = none

unfoldable pub as_int64 : Json → Option ℤ
as_int64 null = some (pos 0)
as_int64 (number n) =
    if int_leb (negsuc (2 ^ 63 - 1)) n && int_ltb n (pos (2 ^ 63)) then some n else none
as_int64 _ = none

unfoldable pub parsed_duration : Option Duration → Result Duration
parsed_duration none = err (message "invalid duration")
parsed_duration (some d) = ok d

unfoldable pub nanoseconds : Option ℤ → Result Duration
nanoseconds none = err (message "cannot parse duration")
nanoseconds (some ns) = ok ns

-- Duration.UnmarshalJSON, for time.ParseDuration.
unfoldable pub unmarshal_duration : (String → Option Duration) → Json → Result Duration
unmarshal_duration parse_duration j = elim (as_string j) [
  | some s ↦ parsed_duration (parse_duration s)
  | none ↦ nanoseconds (as_int64 j)
]

unfoldable pub mode_of_bool : Option Bool → Result String
mode_of_bool none = err (message "preflight must be a string mode")
mode_of_bool (some enabled) =
    if enabled then err (message "preflight must be a string mode, got true") else ok "off"

-- PreflightMode.UnmarshalJSON
unfoldable pub unmarshal_preflight : Json → Result String
unmarshal_preflight j = elim (as_string j) [ some s ↦ ok s | none ↦ mode_of_bool (as_bool j) ]

pub record Profile : Type 0 where
  pub timeout : Option Duration
  pub rollout_timeout : Option Duration
  pub pod_vacate_timeout : Option Duration
  pub eviction_timeout : Option Duration
  pub pdb_retry_interval : Option Duration
  pub poll_interval : Option Duration
  pub max_concurrency : Option ℤ
  pub node_concurrency : Option ℤ
  pub preflight : String
  pub log_format : String
  pub dry_run : Option Bool
  pub force : Option Bool
  pub ignore_daemon_sets : Option Bool
  pub delete_empty_dir : Option Bool
  pub force_delete_standalone : Option Bool
  pub uncordon_on_failure : Option Bool
  pub emit_events : Option Bool
  pub stateful_name_patterns : List String

pub record Config : Type 0 where
  pub defaults : Profile
  pub profiles : Map Profile

-- GetProfile. The names that the error lists are left out of its text.
unfoldable pub get_profile : Config → String → Result Profile
get_profile c name = elim (lookup name c.profiles) [
  | none ↦ err (message "profile not found")
  | some p ↦ ok p
]

-- A profile as the library reads it, before the values with an UnmarshalJSON are decoded.
pub record RawProfile : Type 0 where
  pub durations : Map Json
  pub preflight : Option Json
  -- the fields of other types; its durations and its preflight mode are empty
  pub plain : Profile

pub record RawConfig : Type 0 where
  pub defaults : RawProfile
  pub profiles : Map RawProfile

-- What of the machine the configuration depends on.
pub record Machine : Type 0 where
  -- os.UserHomeDir
  pub user_home_dir : Result String
  -- os.Getenv("KUBECTL_SAFED_CONFIG")
  pub config_variable : String
  -- os.ReadFile, and then sigsyaml.UnmarshalStrict but for the two types
  pub read_file : String → Result (Result RawConfig)
  -- time.ParseDuration
  pub parse_duration : String → Option Duration

-- filepath.Join of a home directory, which is a clean path, and a path below it.
unfoldable pub join_home : String → String → String
join_home home path = if home == "/" then append_text "/" path else slash2 home path

unfoldable pub default_config_path : Machine → Result String
default_config_path m =
    and_then (in_words "resolving home directory" m.user_home_dir)
      (λ home. ok (join_home home ".kube/safed.yaml"))
