-- ===== src/Tests/Configuration.antt =====
-- The configuration of the command, at a file with defaults and a profile.
use k8s_safed.Commands.Specs.{config_flags}
use k8s_safed.Base.Text.{append_text}
use k8s_safed.App.Layers.{override, text_value}
use k8s_safed.Config.{
  unmarshal_duration, as_string, parsed_duration, unmarshal_preflight, as_bool, get_profile,
  mode_of_bool, nanoseconds, as_int64,
}
use k8s_safed.Config.Read.{
  load, decode_config, decode_profile, decode_pointer, decode_mode, decode_profiles,
}
use k8s_safed.App.Configure.{
  apply_loaded, load_config, loaded_or_none, apply_defaults, apply_found, apply_mode, apply_profile,
  env_config, without_file,
}
use k8s_safed.App.{is_preflight_mode, is_log_format, check_durations}
use k8s_safed.Base.Maps.{lookup}
use k8s_safed.Base.Text.{slash2}
use k8s_safed.Config.{default_config_path, join_home}
use k8s_safed.App.Configure.{config_path, explicit_config}
use k8s_safed.Base.{◌≡◌, refl, true, false, none, some, [], ◌∷◌, ◌==◌, if◌then◌else◌}
use k8s_safed.Base.Int.{pos}
use k8s_safed.Cluster.Env.{ok, err, not_exist}
use k8s_safed.Config.{boolean, text, RawProfile, Machine}
use k8s_safed.App.{AppOptions, validate_options}
use k8s_safed.App.Layers.{
  FlagChanged, or_unchanged, apply_profile_values, empty_profile, built_in_drain_modes,
}
use k8s_safed.App.Layers.Modes.{modes_keep_valid}
use k8s_safed.App.Configure.{apply_config}
use k8s_safed.App.Configure.Sources.{HasLayers, apply_config-IsLayered}
use k8s_safed.App.Configure.Flags.{KeepsFlags, without_alias, apply_config-KeepsFlags}
use k8s_safed.App.Configure.Missing.{WithoutFile, apply_config-missing}
use k8s_safed.Commands.Specs.Decide.{apply_config-same}
use k8s_safed.Tests.Validation.{app_options}

abbrev raw_defaults : RawProfile
raw_defaults = record {
  durations = ("timeout", text "90s") ∷ [];
  preflight = some (boolean false);
  plain = record empty_profile { stateful_name_patterns = "ledger" ∷ [] };
}

abbrev raw_shop : RawProfile
raw_shop = record {
  durations = [];
  preflight = none;
  plain = record empty_profile { max_concurrency = some (pos 3); dry_run = some false };
}

abbrev pub machine : Machine
machine = record {
  user_home_dir = ok "/home/ops";
  config_variable = "";
  read_file =
      λ path. ok (ok (record { defaults = raw_defaults; profiles = ("shop", raw_shop) ∷ [] }));
  parse_duration = λ s. some (pos 90);
}

abbrev bare_machine : Machine
bare_machine = record machine { read_file = λ path. err not_exist }

abbrev pub with_timeout_flag : FlagChanged
with_timeout_flag flag = flag == "timeout"

abbrev with_alias_flag : FlagChanged
with_alias_flag flag = if flag == "skip-daemon-sets" then true else flag == "timeout"

abbrev asked : AppOptions
asked = record app_options { mode = "scale-down"; profile = "shop" }

abbrev configured : AppOptions
configured = (apply_config machine asked (some with_timeout_flag)).1

apply_config-IsLayered_example : HasLayers machine with_timeout_flag asked configured
unfolding apply_config apply_loaded load_config config_path explicit_config loaded_or_none
    apply_defaults apply_found apply_mode apply_profile env_config without_file load decode_config
    decode_profile decode_pointer decode_mode decode_profiles unmarshal_duration as_string
    parsed_duration unmarshal_preflight as_bool get_profile join_home mode_of_bool nanoseconds
    as_int64 default_config_path apply_profile_values built_in_drain_modes or_unchanged override
    text_value lookup slash2 append_text
apply_config-IsLayered_example =
    apply_config-IsLayered machine asked configured (some with_timeout_flag) refl

apply_config-KeepsFlags_example :
    KeepsFlags with_timeout_flag asked (apply_config machine asked (some with_timeout_flag)).1
    × (apply_config machine asked (some with_timeout_flag)
        ≡ apply_config machine asked (some (without_alias with_timeout_flag)))
unfolding or_unchanged
apply_config-KeepsFlags_example = apply_config-KeepsFlags machine asked (some with_timeout_flag)

apply_config-missing_example :
    WithoutFile bare_machine asked (or_unchanged none) (apply_config bare_machine asked none)
unfolding config_path explicit_config default_config_path join_home slash2
apply_config-missing_example =
    apply_config-missing bare_machine asked none "/home/ops/.kube/safed.yaml" refl refl

apply_config-same_example :
    apply_config machine asked (some with_timeout_flag)
    ≡ apply_config machine asked (some with_alias_flag)
unfolding config_flags
apply_config-same_example = apply_config-same machine asked with_timeout_flag with_alias_flag (
  refl,
  (
    refl,
    (
      refl,
      (
        refl,
        (
          refl,
          (
            refl,
            (
              refl,
              (
                refl,
                (refl, (refl, (refl, (refl, (refl, (refl, (refl, (refl, (refl, (refl, tt)))))))))),
              ),
            ),
          ),
        ),
      ),
    ),
  ),
)

modes_keep_valid_example :
    validate_options (
      apply_profile_values app_options with_timeout_flag (record empty_profile {
        preflight = "warn";
        dry_run = some true;
        poll_interval = some (pos 1000000000);
        timeout = some (pos 600000000000);
      }))
    ≡ ok tt
unfolding lookup built_in_drain_modes validate_options is_preflight_mode is_log_format
    check_durations
modes_keep_valid_example = modes_keep_valid app_options with_timeout_flag "debug" _ refl refl

off_mode : configured.preflight ≡ "warn"
unfolding apply_config apply_loaded load_config config_path explicit_config loaded_or_none
    apply_defaults apply_found apply_mode apply_profile env_config without_file load decode_config
    decode_profile decode_pointer decode_mode decode_profiles unmarshal_duration as_string
    parsed_duration unmarshal_preflight as_bool get_profile join_home mode_of_bool nanoseconds
    as_int64 default_config_path apply_profile_values built_in_drain_modes or_unchanged override
    text_value lookup slash2 append_text
off_mode = refl

added_pattern : configured.stateful_name_patterns ≡ "ledger" ∷ []
unfolding apply_config apply_loaded load_config config_path explicit_config loaded_or_none
    apply_defaults apply_found apply_mode apply_profile env_config without_file load decode_config
    decode_profile decode_pointer decode_mode decode_profiles unmarshal_duration as_string
    parsed_duration unmarshal_preflight as_bool get_profile join_home mode_of_bool nanoseconds
    as_int64 default_config_path apply_profile_values built_in_drain_modes or_unchanged override
    text_value lookup slash2 append_text
added_pattern = refl
