-- ===== src/App/Whole/Untouched.antt =====
-- The command with --dry-run.
use k8s_safed.Base.{
  ◌≡◌, refl, ◌∙◌, ℕ, zero, suc, String, true, Option, none, some, List, [], ◌∷◌, ◌==◌, All-every,
}
use k8s_safed.Cluster.Objects.{Node}
use k8s_safed.Cluster.Calls.{Context}
use k8s_safed.Cluster.Env.{Env, Error, message}
use k8s_safed.Cluster.Errors.{is_transient}
use k8s_safed.Cluster.Exec.{World, Exec}
use k8s_safed.Cluster.Exec.Keeps.{
  Keeps, Keeps-bind, Keeps-pure, Keeps-raise, Keeps-if, Keeps-lift, Keeps-try_catch, Keeps-ask,
  Keeps-in_context,
}
use k8s_safed.Cluster.Exec.Adds.{nothing}
use k8s_safed.Cluster.Reads.{ReadClosed, wait_or_done-Keeps}
use k8s_safed.Cluster.Poll.{Poller}
use k8s_safed.Config.{Machine}
use k8s_safed.Drain.DryRun.{IsUntouched, IsUntouched-ReadClosed}
use k8s_safed.Drain.DryRun.Whole.{run-Keeps}
use k8s_safed.App.{AppOptions, drainer_options}
use k8s_safed.App.Layers.{FlagChanged, or_unchanged}
use k8s_safed.App.Nodes.{names_of, or_ended, list_once, list_attempts, resolve_node_names}
use k8s_safed.App.Configure.{apply_config}
use k8s_safed.App.Configure.Flags.{apply_config-KeepsFlags}
use k8s_safed.App.Resolved.Keeps.{run_resolved-Keeps}
use k8s_safed.App.Whole.{KubeFlags, run_targets, run_configured, run_app}

module _ {P : World → Type 0} (closed : ReadClosed P) (env : Env) where
  names_of-Keeps : (nodes : List Node) → Keeps P (names_of nodes)
  unfolding names_of
  names_of-Keeps [] = Keeps-raise _
  names_of-Keeps (node ∷ nodes) = Keeps-pure _

  or_ended-Keeps :
      (ctx : Context) (selector : String) (again : Exec (List String)) (e : Error)
      (o : Option Error)
      → Keeps P again
      → Keeps P (or_ended env ctx selector again e o)
  unfolding or_ended
  or_ended-Keeps ctx selector again e none k = k
  or_ended-Keeps ctx selector again e (some done) k = Keeps-raise _

  list_attempts-Keeps :
      (ctx : Context) (selector : String) (n : ℕ) (last : Error)
      → Keeps P (list_attempts env ctx selector n last)
  unfolding list_attempts list_once
  list_attempts-Keeps ctx selector zero last = Keeps-raise _
  list_attempts-Keeps ctx selector (suc n) last =
      Keeps-try_catch _ _ _ (Keeps-ask _ _ (closed.reads _ tt)) names_of-Keeps (λ e.
        Keeps-if (is_transient env e) _ _
          (λ _.
            Keeps-bind _ _ (wait_or_done-Keeps closed env ctx _)
              (λ o. or_ended-Keeps ctx selector _ e o (list_attempts-Keeps ctx selector n e)))
          (λ _. Keeps-raise _))

  pub resolve_node_names-Keeps :
      (ctx : Context) (selector : String) (node_args : List String)
      → Keeps P (resolve_node_names env ctx selector node_args)
  unfolding resolve_node_names
  resolve_node_names-Keeps ctx selector node_args =
      Keeps-if (selector == "") _ _ (λ _. Keeps-pure _)
        (λ _. list_attempts-Keeps ctx selector 3 (message ""))

  module _ (poller : Poller) (m : Machine) (flags : KubeFlags) (opts : AppOptions)
      (dry : opts.dry_run ≡ true) where
    run_targets-Keeps :
        (ctx : Context) (nodes : List String)
        → Keeps P (run_targets env poller m flags ctx opts nodes)
    unfolding run_targets drainer_options
    run_targets-Keeps ctx nodes = Keeps-bind _ _ (Keeps-lift _) (λ _.
        Keeps-bind _ _ (Keeps-in_context _ _ (Keeps-lift _)) (λ kube_context.
          run_resolved-Keeps P env poller m.user_home_dir kube_context opts nodes ctx (
            All-every _
              (λ n inner path.
                run-Keeps closed env poller (drainer_options opts nodes kube_context n path) dry
                  inner)
              nodes)))

    pub run_configured-Keeps :
        (ctx : Context) (node_args : List String)
        → Keeps P (run_configured env poller m flags ctx node_args opts)
    unfolding run_configured
    run_configured-Keeps ctx node_args =
        Keeps-bind _ _ (Keeps-bind _ _ (Keeps-lift _) (λ _. Keeps-in_context _ _ (Keeps-lift _)))
          (λ _. Keeps-bind _ _ (resolve_node_names-Keeps ctx _ node_args) (run_targets-Keeps ctx))

run_app-Keeps :
    {P : World → Type 0} (closed : ReadClosed P) (env : Env) (poller : Poller) (m : Machine)
    (flags : KubeFlags) (ctx : Context) (node_args : List String) (opts : AppOptions)
    (changed : Option FlagChanged)
    → (apply_config m opts changed).1.dry_run ≡ true
    → Keeps P (run_app env poller m flags ctx node_args opts changed)
unfolding run_app
run_app-Keeps closed env poller m flags ctx node_args opts changed dry =
    Keeps-bind _ _
      (Keeps-bind _ _ (Keeps-lift _)
        (λ _. run_configured-Keeps closed env poller m flags _ dry ctx node_args))
      (λ _. Keeps-pure _)

-- When --dry-run is given on the command line, then whatever the configuration file, the mode and
-- the profile say, and whatever the server answers, the whole command only reads and waits: it
-- changes nothing of the cluster, no file, and no recorded restart.
pub run_app_dry :
    (env : Env) (poller : Poller) (m : Machine) (flags : KubeFlags) (ctx : Context)
    (node_args : List String) (opts : AppOptions) (changed : FlagChanged) (w : World)
    → changed "dry-run" ≡ true
    → opts.dry_run ≡ true
    → IsUntouched w (run_app env poller m flags ctx node_args opts (some changed) w).1
unfolding or_unchanged
run_app_dry env poller m flags ctx node_args opts changed w given dry =
    (run_app-Keeps (IsUntouched-ReadClosed w) env poller m flags ctx node_args opts (some changed)
        ((apply_config-KeepsFlags m opts (some changed)).0.dry_run given ∙ dry)).at
      w (record { only_reads = nothing refl; files = refl; restarted = refl })
