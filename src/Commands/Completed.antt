-- ===== src/Commands/Completed.antt =====
-- What the drain command promises.
use k8s_safed.Base.{
  ◌≡◌, ◌⊎◌, sym, subst, String, true, false, some, List, not, ◌&&◌, ◌==◌, arith, eq_iff,
}
use k8s_safed.Cluster.Calls.{Context}
use k8s_safed.Cluster.Env.{Env, ok}
use k8s_safed.Cluster.Exec.{World}
use k8s_safed.Cluster.Exec.Meets.{
  Returns, Returns-pure, Returns-raise, Returns-bind, Returns-ok, Meets-if,
}
use k8s_safed.Cluster.Exec.Meets.More.{Meets-mono}
use k8s_safed.Cluster.Poll.{Poller}
use k8s_safed.Config.{Machine}
use k8s_safed.App.Layers.{FlagChanged}
use k8s_safed.App.Configure.{apply_config}
use k8s_safed.App.Whole.{KubeFlags}
use k8s_safed.App.Whole.Done.{IsDone, run_app-IsDone}
use k8s_safed.Commands.{DrainOptions, to_app_options, is_empty, run_drain, drain_command}
use k8s_safed.Commands.Copies.{apply_app_options-to_app_options}

-- Either names of nodes or a selector, and not both lists of workloads.
pub record IsWellCalled (args : List String) (opts : DrainOptions) : Type 0 where
  pub targets :
      ((is_empty args ≡ false) × (opts.node_selector ≡ ""))
      ⊎ ((is_empty args ≡ true) × (opts.node_selector == "" ≡ false))
  pub workloads : (is_empty opts.skip_workloads ≡ true) ⊎ (is_empty opts.only_workloads ≡ true)

module _ (env : Env) (poller : Poller) (m : Machine) (flags : KubeFlags) (ctx : Context)
    (args : List String) (opts : DrainOptions) (changed : FlagChanged) where
  -- The application's part is done, with the configured options.
  abbrev pub IsCompleted : DrainOptions → Type 0
  IsCompleted o' =
      (apply_config m (to_app_options opts) (some changed) ≡ (ok tt, to_app_options o'))
      × IsDone env poller m flags ctx args (to_app_options o')

  run_drain-IsCompleted : Returns IsCompleted (run_drain env poller m flags ctx args opts changed)
  unfolding run_drain
  run_drain-IsCompleted =
      Returns-bind
        (λ o.
          (apply_config m (to_app_options opts) (some changed) ≡ (ok tt, o))
          × IsDone env poller m flags ctx args o)
        _ _ (run_app-IsDone env poller m flags ctx args (to_app_options opts) (some changed))
        (λ o h. Returns-pure _ (
          subst
            (λ a.
              (apply_config m (to_app_options opts) (some changed) ≡ (ok tt, a))
              × IsDone env poller m flags ctx args a)
            (sym ((apply_app_options-to_app_options opts opts o).1)) h))

  drain_command-Returns :
      Returns
        (λ o'. IsWellCalled args opts × IsCompleted o')
        (drain_command env poller m flags ctx args opts changed)
  unfolding drain_command
  drain_command-Returns =
      Meets-if (is_empty args && opts.node_selector == "") _ _ (λ none. Returns-raise _)
        (λ some.
          Meets-if (not (is_empty args) && not (opts.node_selector == "")) _ _
            (λ both. Returns-raise _)
            (λ not_both.
              Meets-if (not (is_empty opts.skip_workloads) && not (is_empty opts.only_workloads)) _
                _ (λ lists. Returns-raise _)
                (λ one_list.
                  Meets-mono
                    (λ o' w h. (
                      record {
                        targets = ground (arith, eq_iff opts.node_selector "");
                        workloads = ground arith;
                      },
                      h,
                    ))
                    (λ e w h. h) run_drain-IsCompleted)))

-- When the drain command ends without an error, it was called with names of nodes or with a
-- selector, not both, and not with both lists of workloads; its options are the configured ones;
-- and every node that they select has had a run of its drainer that ended without an error. After
-- it the node was cordoned as `AfterSuccess` says and, unless it was a dry run, each of its pods
-- that no filtered workload protects was left alone or had gone, as `RunCleared` says.
pub drain_command_done :
    (env : Env) (poller : Poller) (m : Machine) (flags : KubeFlags) (ctx : Context)
    (args : List String) (opts o' : DrainOptions) (changed : FlagChanged) (w w' : World)
    → drain_command env poller m flags ctx args opts changed w ≡ (ok o', w')
    → IsWellCalled args opts × IsCompleted env poller m flags ctx args opts changed o'
drain_command_done env poller m flags ctx args opts o' changed w w' =
    Returns-ok
      (λ o. IsWellCalled args opts × IsCompleted env poller m flags ctx args opts changed o) _ w
      (drain_command-Returns env poller m flags ctx args opts changed)
