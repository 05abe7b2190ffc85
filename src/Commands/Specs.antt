-- ===== src/Commands/Specs.antt =====
-- cmd/drain_options.go: the table of the options, and what the configuration reads of it.
pub mod Decide
use k8s_safed.Base.{
  ◌≡◌, refl, String, Bool, true, false, Option, none, some, List, [], ◌∷◌, not, ◌&&◌, ◌||◌, ◌==◌,
  map, keep_if, any, All, arith, eq_iff, if◌then◌else◌,
}
use k8s_safed.Base.Maps.{Map, insert, get_flag, lookup-insert}

pub record OptionSpec : Type 0 where
  pub name : String
  pub config_key : String
  pub hidden : Bool

abbrev plain : String → OptionSpec
plain s = record { name = s; config_key = ""; hidden = false }

abbrev configured : String → OptionSpec
configured s = record { name = s; config_key = s; hidden = false }

unfoldable pub drain_option_specs : List OptionSpec
drain_option_specs =
    configured "dry-run"
    ∷ configured "timeout"
    ∷ configured "ignore-daemonsets"
    ∷ record { name = "skip-daemon-sets"; config_key = ""; hidden = true }
    ∷ configured "delete-emptydir-data"
    ∷ plain "grace-period"
    ∷ configured "rollout-timeout"
    ∷ configured "pod-vacate-timeout"
    ∷ configured "eviction-timeout"
    ∷ configured "pdb-retry-interval"
    ∷ configured "poll-interval"
    ∷ configured "force"
    ∷ configured "force-delete-standalone"
    ∷ configured "max-concurrency"
    ∷ configured "log-format"
    ∷ configured "uncordon-on-failure"
    ∷ plain "selector"
    ∷ configured "node-concurrency"
    ∷ configured "preflight"
    ∷ plain "skip-workload"
    ∷ plain "only-workload"
    ∷ plain "profile"
    ∷ plain "config"
    ∷ plain "mode"
    ∷ record {
      name = "stateful-name-pattern";
      config_key = "stateful-name-patterns";
      hidden = false;
    }
    ∷ configured "emit-events"
    ∷ plain "resume"
    ∷ plain "checkpoint-path"
    ∷ []

unfoldable pub insert_names : Bool → Map Bool → List OptionSpec → Map Bool
insert_names include_hidden names [] = names
insert_names include_hidden names (spec ∷ specs) =
    if spec.hidden && not include_hidden
    then insert_names include_hidden names specs
    else insert_names include_hidden (insert spec.name true names) specs

unfoldable pub public_drain_option_names : Bool → Map Bool
unfolding insert_names
public_drain_option_names include_hidden = insert_names include_hidden [] drain_option_specs

-- The names of the flags that a configuration may set.
unfoldable pub config_flags : List String
unfolding drain_option_specs
config_flags = map (λ s. s.name) (keep_if (λ s. not (s.config_key == "")) drain_option_specs)
