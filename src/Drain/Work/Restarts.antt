-- ===== src/Drain/Work/Restarts.antt =====
-- A rolling restart makes no calls but work.
use k8s_safed.Cluster.Exec.{gets}
use k8s_safed.Base.{Option, none, some, String, Bool, true, false, List, ◌∷◌, not}
use k8s_safed.Base.Int.{ℤ}
use k8s_safed.Cluster.Calls.{Context, Event}
use k8s_safed.Cluster.Env.{Env, Error}
use k8s_safed.Cluster.Exec.{World, Exec, Done}
use k8s_safed.Cluster.Exec.Keeps.{
  Keeps, keeps_rules, Keeps-bind, Keeps-pure, Keeps-raise, Keeps-if, Keeps-in_context,
}
use k8s_safed.Cluster.Exec.Meets.{Meets, Meets-Keeps, Meets-if, Meets-pure, Meets-bind}
use k8s_safed.Cluster.Exec.Meets.More.{Meets-ignore}
use k8s_safed.Drain.Events.{events_enabled}
use k8s_safed.Cluster.Reads.{ReadClosed, poll-Keeps}
use k8s_safed.Cluster.Poll.{Poller}
use k8s_safed.Workload.{Workload, Kind, deployment, stateful_set, other}
use k8s_safed.Drain.Options.{Options}
use k8s_safed.Drain.Events.{node_event, workload_event, create}
use k8s_safed.Drain.Work.{
  WorkClosed, WorkClosed-ReadClosed, patch_deployment-Keeps, patch_stateful_set-Keeps,
  create_event-Keeps, make_dir_of-Keeps, write_file-Keeps, rename_file-Keeps,
}
use k8s_safed.Drain.Checkpoint.{Checkpoint}
use k8s_safed.Drain.Checkpoint.Store.{save}
use k8s_safed.Drain.Runner.{save_progress, run_workloads}
use k8s_safed.Drain.Runner.Keeps.{run_workloads-Keeps}
use k8s_safed.Drain.Rollout.Checks.{check_deployment-Keeps, check_stateful_set-Keeps}
use k8s_safed.Drain.Rollout.Reads.{workload_pod_count_on_node-Keeps}
use k8s_safed.Drain.Rollout.Vacate.{check_vacated, wait_for_pods_off_node}
use k8s_safed.Drain.Rollout.DeploymentWait.{wait_for_deployment_rollout}
use k8s_safed.Drain.Rollout.StatefulSetWait.{wait_for_stateful_set_rollout}
use k8s_safed.Drain.Rollout.Restart.{
  restart_deployment, restart_stateful_set, already_done, mark_restarted, unless_done, unless_ended,
  coordinate, restart_and_wait, trigger_restart, rolling_restart,
}

module _ {P : World → Type 0} (closed : WorkClosed P) (env : Env) where
  reads : ReadClosed P
  reads = WorkClosed-ReadClosed closed

  module _ (opts : Options) where
    create-Keeps : (ctx : Context) (ns : String) (e : Event) → Keeps P (create env opts ctx ns e)
    unfolding create
    create-Keeps ctx ns e = search (keeps_rules, create_event-Keeps closed env)

    pub node_event_work-Keeps :
        (ctx : Context) (reason kind : String) → Keeps P (node_event env opts ctx reason kind)
    unfolding node_event
    node_event_work-Keeps ctx reason kind = search (keeps_rules, create-Keeps)

    pub node_event-Meets :
        (ctx : Context) (reason kind : String)
        → Meets P (λ _. P) (λ _ _. ⊥) (node_event env opts ctx reason kind)
    unfolding node_event create gets
    node_event-Meets ctx reason kind =
        Meets-if (not (events_enabled opts)) _ _ (λ _. Meets-pure tt (λ w p. p))
          (λ _.
            Meets-bind (λ _. P) _ _ (record { at = λ w p. p })
              (λ time. Meets-ignore _ (Meets-Keeps _ (create_event-Keeps closed env _ _ _))))

    pub workload_event-Keeps :
        (ctx : Context) (w : Workload) (reason kind : String)
        → Keeps P (workload_event env opts ctx w reason kind)
    unfolding workload_event
    workload_event-Keeps ctx w reason kind = search (keeps_rules, create-Keeps)

  pub mark_restarted-Keeps : (key : String) → Keeps P (mark_restarted env key)
  unfolding mark_restarted
  mark_restarted-Keeps key = record { at = λ w h. closed.effects w w.files (key ∷ w.restarted) h }

  unless_done-Keeps :
      (action : Exec Done) (key : String) (b : Bool)
      → Keeps P action
      → Keeps P (unless_done env action key b)
  unfolding unless_done
  unless_done-Keeps action key true k = search keeps_rules
  unless_done-Keeps action key false k = search (keeps_rules, mark_restarted-Keeps)

  unless_ended-Keeps :
      (action : Exec Done) (key : String) (o : Option Error)
      → Keeps P action
      → Keeps P (unless_ended env action key o)
  unfolding unless_ended already_done
  unless_ended-Keeps action key none k = search (keeps_rules, unless_done-Keeps)
  unless_ended-Keeps action key (some e) k = search keeps_rules

  coordinate-Keeps :
      (b : Bool) (ctx : Context) (w : Workload) (action : Exec Done)
      → Keeps P action
      → Keeps P (coordinate env b ctx w action)
  unfolding coordinate
  coordinate-Keeps false ctx w action k = k
  coordinate-Keeps true ctx w action k = search (keeps_rules, unless_ended-Keeps)

  module _ (poller : Poller) (opts : Options) (ctx : Context) where
    deployment_wait-Keeps :
        (ns name : String) (target : ℤ)
        → Keeps P (wait_for_deployment_rollout env poller opts ctx ns name target)
    unfolding wait_for_deployment_rollout
    deployment_wait-Keeps ns name target =
        poll-Keeps reads poller _ _ _ _ (check_deployment-Keeps reads env _ ns name target)

    stateful_set_wait-Keeps :
        (ns name : String) (target : ℤ)
        → Keeps P (wait_for_stateful_set_rollout env poller opts ctx ns name target)
    unfolding wait_for_stateful_set_rollout
    stateful_set_wait-Keeps ns name target =
        poll-Keeps reads poller _ _ _ _ (check_stateful_set-Keeps reads env _ ns name target)

    check_vacated-Keeps :
        (c : Context) (w : Workload) (s : Unit {0}) → Keeps P (check_vacated env opts c w s)
    unfolding check_vacated
    check_vacated-Keeps c w s = search (keeps_rules, workload_pod_count_on_node-Keeps reads env)

    vacate_wait-Keeps : (w : Workload) → Keeps P (wait_for_pods_off_node env poller opts ctx w)
    unfolding wait_for_pods_off_node
    vacate_wait-Keeps w = poll-Keeps reads poller _ _ _ _ (check_vacated-Keeps _ w)

    restart_and_wait-Keeps :
        (k : Kind) (w : Workload) → Keeps P (restart_and_wait env poller opts k ctx w)
    unfolding restart_and_wait restart_deployment restart_stateful_set
    restart_and_wait-Keeps deployment w =
        Keeps-bind _ _ (search (keeps_rules, patch_deployment-Keeps closed env))
          (λ g. Keeps-in_context _ _ (deployment_wait-Keeps _ _ g))
    restart_and_wait-Keeps stateful_set w =
        Keeps-bind _ _ (search (keeps_rules, patch_stateful_set-Keeps closed env))
          (λ g. Keeps-in_context _ _ (stateful_set_wait-Keeps _ _ g))
    restart_and_wait-Keeps (other k) w = Keeps-raise _

    trigger_restart-Keeps : (w : Workload) → Keeps P (trigger_restart env poller opts ctx w)
    unfolding trigger_restart
    trigger_restart-Keeps w = search (keeps_rules, workload_event-Keeps, restart_and_wait-Keeps)

    pub rolling_restart_work-Keeps :
        (w : Workload) → Keeps P (rolling_restart env poller opts ctx w)
    unfolding rolling_restart
    rolling_restart_work-Keeps w =
        Keeps-if opts.dry_run _ _ (λ _. Keeps-pure tt)
          (λ _.
            Keeps-bind _ _
              (Keeps-bind _ _ (coordinate-Keeps _ ctx w _ (trigger_restart-Keeps w))
                (λ _. Keeps-in_context _ _ (vacate_wait-Keeps w)))
              (λ _. workload_event-Keeps opts ctx w _ _))

  module _ (poller : Poller) (opts : Options) where
    save-Keeps : (cp : Checkpoint) (path : String) → Keeps P (save env cp path)
    unfolding save
    save-Keeps cp path = search (
      keeps_rules,
      make_dir_of-Keeps closed env,
      write_file-Keeps closed env,
      rename_file-Keeps closed env,
    )

    pub save_progress_work-Keeps :
        (cp : Checkpoint) (w : Workload) → Keeps P (save_progress env poller opts cp w)
    unfolding save_progress
    save_progress_work-Keeps cp w = search (keeps_rules, save-Keeps)

    pub run_workloads_work-Keeps :
        (ctx : Context) (ws : List Workload) → Keeps P (run_workloads env poller opts ctx ws)
    run_workloads_work-Keeps =
        run_workloads-Keeps reads env poller opts (rolling_restart_work-Keeps poller opts)
          save_progress_work-Keeps
