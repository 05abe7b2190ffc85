-- ===== src/Drain/Events.antt =====
-- pkg/drain/events.go: the events on node and workload objects, which are best effort.
use Prim.Native.String.{◌++◌}
use k8s_safed.Base.{
  ◌≡◌, refl, ℕ, zero, suc, ◌/◌, ◌%◌, String, Bool, not, ◌&&◌, ◌==◌, List, [], ◌∷◌, if◌then◌else◌,
}
use k8s_safed.Cluster.Objects.{Time}
use k8s_safed.Cluster.Calls.{Context, Event, with_timeout}
use k8s_safed.Cluster.Env.{Env}
use k8s_safed.Cluster.Exec.{Exec, Done, pure, ignore, ◌>>=◌}
use k8s_safed.Cluster.Requests.{now, create_event}
use k8s_safed.Workload.{Workload, kind_text}
use k8s_safed.Drain.Options.{Options, seconds}

unfoldable pub coalesce : String → String → String
coalesce s fallback = if not (s == "") then s else fallback

abbrev digit_at : ℕ → List String → String
digit_at n [] = ""
digit_at zero (d ∷ ds) = d
digit_at (suc n) (d ∷ ds) = digit_at n ds

abbrev hex_digit : ℕ → String
hex_digit n = digit_at n (
    "0" ∷ "1" ∷ "2" ∷ "3" ∷ "4" ∷ "5" ∷ "6" ∷ "7" ∷ "8" ∷ "9" ∷ "a" ∷ "b" ∷ "c" ∷ "d" ∷ "e" ∷ "f"
    ∷ [])

-- `%0kx` of a number below 16 ^ k
unfoldable pub hex : ℕ → ℕ → String
hex zero n = ""
hex (suc k) n = hex k (n / 16) ++ hex_digit (n % 16)

-- `build`
unfoldable pub build_event : String → String → String → String → String → Time → Event
unfolding hex coalesce
build_event object_kind name namespace reason kind time = record {
  name = name ++ ("." ++ hex 16 time);
  namespace = coalesce namespace "default";
  object_kind = object_kind;
  object_name = name;
  object_namespace = namespace;
  reason = reason;
  kind = kind;
  timestamp = time;
}

-- `EmitEvents && !DryRun`, which `NewDrainer` gives to the emitter.
unfoldable pub events_enabled : Options → Bool
events_enabled opts = opts.emit_events && not opts.dry_run

module _ (env : Env) (opts : Options) where
  -- A failure is logged and dropped.
  unfoldable pub create : Context → String → Event → Exec Done
  create ctx namespace e = ignore (create_event env (with_timeout (seconds 5) ctx) namespace e)

  unfoldable pub node_event : Context → String → String → Exec Done
  unfolding create events_enabled
  node_event ctx reason kind =
      if not (events_enabled opts)
      then pure tt
      else now env >>= λ time.
          create ctx "default" (build_event "Node" opts.node_name "" reason kind time)

  unfoldable pub workload_event : Context → Workload → String → String → Exec Done
  unfolding create events_enabled
  workload_event ctx w reason kind =
      if not (events_enabled opts)
      then pure tt
      else now env >>= λ time.
          create ctx w.namespace
            (build_event (kind_text w.kind) w.name w.namespace reason kind time)

hex_example : hex 16 1773 ≡ "00000000000006ed"
unfolding hex
hex_example = refl
