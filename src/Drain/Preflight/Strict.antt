-- ===== src/Drain/Preflight/Strict.antt =====
-- What a strict preflight has established when it lets a drain go on.
use k8s_safed.Base.{
  ◌≡◌, ◌≢◌, refl, ◌+◌, String, false, List, [], ◌∷◌, ◌++◌, arith, eq_iff, All, ltb,
}
use k8s_safed.Base.Int.{pos, int_eq}
use k8s_safed.Cluster.Objects.{Deployment, StatefulSet}
use k8s_safed.Cluster.Calls.{Context, Call, History}
use k8s_safed.Cluster.Env.{Env, Error, Result, ok, err}
use k8s_safed.Cluster.Exec.{World, ask}
use k8s_safed.Cluster.Exec.Meets.{
  Post, Returns, Returns-pure, Returns-raise, Returns-bind, Returns-any, Returns-ok, Meets-if,
  Meets-pure, Meets-try_catch,
}
use k8s_safed.Cluster.Exec.Meets.More.{Meets-mono}
use k8s_safed.Workload.{Workload, Kind, deployment, stateful_set, other, workload_key}
use k8s_safed.Drain.Options.{Options, strict}
use k8s_safed.Drain.Rollout.DeploymentWait.{desired_replicas}
use k8s_safed.Drain.Preflight.{
  deployment_issues, stateful_set_issues, is_partitioned, unless_strict, inspect, inspect_all,
  risk_count, judge, run_preflight, name_issue,
}
use k8s_safed.Drain.Preflight.Budgets.{Issue}
use k8s_safed.Drain.Preflight.Patterns.{matches_stateful_pattern}

risk_count-append : (xs ys : List Issue) → risk_count (xs ++ ys) ≡ risk_count xs + risk_count ys
risk_count-append [] ys = omega arith
risk_count-append (x ∷ xs) ys = ground (arith, risk_count-append xs ys)

-- A Deployment whose restart keeps it available.
pub record IsSafeDeployment (dep : Deployment) : Type 0 where
  pub replicated : int_eq (desired_replicas dep.replicas) (pos 1) ≡ false
  pub rolled : dep.strategy ≢ "Recreate"
  pub running : dep.paused ≡ false

pub record IsSafeStatefulSet (sts : StatefulSet) : Type 0 where
  pub replicated : int_eq (desired_replicas sts.replicas) (pos 1) ≡ false
  pub rolled : sts.update_strategy ≢ "OnDelete"
  pub whole : is_partitioned sts.rolling_update ≡ false

deployment_issues-IsSafe :
    (dep : Deployment) (s : String)
    → risk_count (deployment_issues dep s) ≡ 0
    → IsSafeDeployment dep
unfolding deployment_issues
deployment_issues-IsSafe dep s h = record {
  replicated = ground arith;
  rolled = λ e. ground (arith, eq_iff dep.strategy "Recreate");
  running = ground arith;
}

stateful_set_issues-IsSafe :
    (sts : StatefulSet) (s : String)
    → risk_count (stateful_set_issues sts s) ≡ 0
    → IsSafeStatefulSet sts
unfolding stateful_set_issues
stateful_set_issues-IsSafe sts s h = record {
  replicated = ground arith;
  rolled = λ e. ground (arith, eq_iff sts.update_strategy "OnDelete");
  whole = ground arith;
}

module _ (env : Env) (ctx : Context) where
  -- The server returned the object of the workload, and its restart keeps it available.
  abbrev pub IsInspected : Kind → Workload → Type 0
  IsInspected deployment w =
      (h : History) × ((dep : Deployment) × ((env.deployment_of h ctx w.namespace w.name ≡ ok dep)
          × IsSafeDeployment dep))
  IsInspected stateful_set w =
      (h : History) × ((sts : StatefulSet) × ((env.stateful_set_of h ctx w.namespace w.name
            ≡ ok sts)
          × IsSafeStatefulSet sts))
  IsInspected (other k) w = Unit

module _ (env : Env) (opts : Options) (ctx : Context) (strict_mode : opts.preflight ≡ strict) where
  ask-Answered :
      {O : Type 0} (answer : History → Result O) (c : Call)
      → Returns (λ o. (h : History) × (answer h ≡ ok o)) (ask answer c)
  unfolding ask
  ask-Answered {O} answer c = record { at = λ w p. answered (answer w.calls) w refl }
    where
      answered :
          (r : Result O) (w : World)
          → answer w.calls ≡ r
          → Post
              (λ o _. (h : History) × (answer h ≡ ok o))
              (λ _ _. Unit)
              (r, record w { calls = c ∷ w.calls })
      answered (ok o) w e = (w.calls, e)
      answered (err x) w e = tt

  unless_strict-raises :
      {Q : List Issue → Type 0} (e : Error) → Returns Q (unless_strict env opts ctx e)
  unfolding unless_strict
  unless_strict-raises e = rw strict_mode (Returns-raise _)

  inspect-IsInspected :
      (k : Kind) (w : Workload)
      → Returns (λ found. risk_count found ≡ 0 → IsInspected env ctx k w) (inspect env opts ctx k w)
  unfolding inspect
  inspect-IsInspected deployment w =
      Meets-try_catch
        (λ dep _. (h : History) × (env.deployment_of h ctx w.namespace w.name ≡ ok dep))
        (λ _ _. Unit) _ _ _ (ask-Answered _ _)
        (λ dep. Meets-pure _ (λ u p safe. (p.0, (dep, (p.1, deployment_issues-IsSafe dep _ safe)))))
        unless_strict-raises
  inspect-IsInspected stateful_set w =
      Meets-try_catch
        (λ dep _. (h : History) × (env.stateful_set_of h ctx w.namespace w.name ≡ ok dep))
        (λ _ _. Unit) _ _ _ (ask-Answered _ _)
        (λ sts.
          Meets-pure _ (λ u p safe. (p.0, (sts, (p.1, stateful_set_issues-IsSafe sts _ safe)))))
        unless_strict-raises
  inspect-IsInspected (other k) w = Returns-pure [] (λ _. tt)

  abbrev AllInspected : List Workload → List Issue → Type 0
  AllInspected ws found = risk_count found ≡ 0 → All (λ w. IsInspected env ctx w.kind w) ws

  no_parts :
      (xs ys : List Issue) → risk_count (xs ++ ys) ≡ 0 → (risk_count xs ≡ 0) × (risk_count ys ≡ 0)
  no_parts xs ys h =
      (omega (arith, risk_count-append xs ys), omega (arith, risk_count-append xs ys))

  inspect_all-AllInspected :
      (ws : List Workload) → Returns (AllInspected ws) (inspect_all env opts ctx ws)
  unfolding inspect_all
  inspect_all-AllInspected [] = Returns-pure [] (λ _. tt)
  inspect_all-AllInspected (w ∷ ws) =
      Returns-bind _ _ _ (inspect-IsInspected w.kind w) (λ found first.
        Returns-bind (AllInspected ws) _ _ (inspect_all-AllInspected ws) (λ rest later.
          Returns-pure _ (λ none_found.
            let parts = no_parts found _ none_found in
            (
              first parts.0,
              later
                  (no_parts
                    (name_issue (matches_stateful_pattern w.name opts.stateful_name_patterns)
                      (workload_key w))
                    rest parts.1).1,
            ))))

  judge-passes :
      (issues : List Issue) → Returns (λ _. risk_count issues ≡ 0) (judge env opts ctx issues)
  unfolding judge
  judge-passes issues = rw strict_mode (
      Meets-if (ltb 0 (risk_count issues)) _ _ (λ _. Returns-raise _)
        (λ no'. Returns-pure tt (ground arith)))

  run_preflight-AllInspected :
      (ws : List Workload)
      → Returns (λ _. All (λ w. IsInspected env ctx w.kind w) ws) (run_preflight env opts ctx ws)
  unfolding run_preflight
  run_preflight-AllInspected [] = Returns-pure tt tt
  run_preflight-AllInspected (w ∷ ws) =
      Returns-bind (AllInspected (w ∷ ws)) _ _ (inspect_all-AllInspected (w ∷ ws))
        (λ found inspected.
          Returns-bind (λ _. Unit) _ _ (Returns-any _)
            (λ budgets _.
              Meets-mono (λ _ _ passed. inspected (no_parts found budgets passed).0) (λ e _ h. h)
                (judge-passes (found ++ budgets))))

-- When a strict preflight lets the drain go on, the server has returned the object of each
-- Deployment and StatefulSet to restart, and none of them has a single replica, a strategy that
-- recreates or waits for deletion, a pause or a partition.
pub run_preflight_strict :
    (env : Env) (opts : Options) (ctx : Context) (ws : List Workload) (w w' : World)
    → opts.preflight ≡ strict
    → run_preflight env opts ctx ws w ≡ (ok tt, w')
    → All (λ v. IsInspected env ctx v.kind v) ws
run_preflight_strict env opts ctx ws w w' mode =
    Returns-ok _ _ w (run_preflight-AllInspected env opts ctx mode ws)
