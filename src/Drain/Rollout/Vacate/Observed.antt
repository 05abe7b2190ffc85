-- ===== src/Drain/Rollout/Vacate/Observed.antt =====
-- What the wait for the pods of a workload has seen when it returns without an error.
use k8s_safed.Base.{
  ◌≡◌, refl, ℕ, String, true, List, [], ◌∷◌, arith, ltb, All, Bool-cases, inl, inr,
}
use k8s_safed.Base.Text.{append_text}
use k8s_safed.Cluster.Objects.{Pod}
use k8s_safed.Cluster.Calls.{Context, Call, History, Request, with_timeout}
use k8s_safed.Cluster.Env.{Env, Error, Result, ok, err}
use k8s_safed.Cluster.Errors.{is_transient}
use k8s_safed.Cluster.Exec.{World, lift, in_context}
use k8s_safed.Cluster.Exec.Meets.{
  Post-ok, Meets, Meets-if, Meets-pure, Meets-raise, Meets-try_catch, Meets-bind,
}
use k8s_safed.Cluster.Exec.Meets.More.{Meets-frame}
use k8s_safed.Cluster.Exec.Since.{
  Grown, same, grown, Since, Since-Grown, Got, ask-Meets, Outcome, Meets-Checked,
}
use k8s_safed.Cluster.Poll.{Poller}
use k8s_safed.Cluster.Poll.Rules.{Meets-poll}
use k8s_safed.Workload.{Workload, is_terminal_pod}
use k8s_safed.Drain.Options.{Options, poll_interval, pod_vacate_timeout}
use k8s_safed.Drain.Rollout.Selectors.{build_label_selector_string}
use k8s_safed.Drain.Rollout.Vacate.{
  live_count, workload_pod_count_on_node, check_vacated, wait_for_pods_off_node,
}

none_live : (pods : List Pod) → live_count pods ≡ 0 → All (λ pod. is_terminal_pod pod ≡ true) pods
unfolding live_count
none_live [] h = tt
none_live (pod ∷ pods) h = elim (Bool-cases (is_terminal_pod pod)) [
  | inl gone ↦ (gone, none_live pods (ground arith))
  | inr live ↦ absurd (ground arith)
]

module _ (env : Env) (opts : Options) (ctx : Context) (wl : Workload) (before : History) where
  abbrev fields : String
  fields = append_text "spec.nodeName=" opts.node_name

  -- Since `before`, the server listed the pods of the workload on the node, and all had ended.
  pub record SawVacated (w : World) : Type 0 where
    pub selector : String
    pub pods : List Pod
    pub selects : build_label_selector_string env wl.selector ≡ ok selector
    pub returned :
        Since
          (λ h. env.pods_of h ctx wl.namespace selector fields)
          (Call.request ctx (Request.list_pods wl.namespace selector fields))
          pods
          before
          w.calls
    pub ended : All (λ pod. is_terminal_pod pod ≡ true) pods

  abbrev Open : Unit {0} → World → Type 0
  Open s w = Grown before w.calls

  abbrev Failed : Error → World → Type 0
  Failed e w = Unit

  -- The count is that of a list of pods.
  abbrev pub Counted : ℕ → World → Type 0
  Counted n w = Grown before w.calls × (n ≡ 0 → SawVacated w)

  text-Meets :
      (r : Result String)
      → build_label_selector_string env wl.selector ≡ r
      → Meets
          (λ w. Grown before w.calls)
          (λ s w. Grown before w.calls × (build_label_selector_string env wl.selector ≡ ok s))
          (λ _ w. Grown before w.calls)
          (in_context "building pod selector" (lift r))
  unfolding in_context lift
  text-Meets (ok s) e = record { at = λ w g. (g, e) }
  text-Meets (err x) e = record { at = λ w g. g }

  pub workload_pod_count_on_node-Counted :
      Meets
        (λ w. Grown before w.calls)
        Counted
        (λ _ w. Grown before w.calls)
        (workload_pod_count_on_node env opts ctx wl)
  unfolding workload_pod_count_on_node
  workload_pod_count_on_node-Counted = Meets-bind _ _ _ (text-Meets _ refl) (λ s.
      Meets-bind
        (λ pods w. Got _ _ before pods w × (build_label_selector_string env wl.selector ≡ ok s)) _ _
        (Meets-frame _ _ (ask-Meets _ _ before))
        (λ pods. Meets-pure _ (λ w h. (
          Since-Grown h.0,
          λ zero'. record {
            selector = s;
            pods = pods;
            selects = h.1;
            returned = h.0;
            ended = none_live pods zero';
          },
        ))))

  check_vacated-Meets :
      (s : Unit {0})
      → Meets (Open s) (Outcome Open SawVacated Failed) Failed (check_vacated env opts ctx wl s)
  unfolding check_vacated
  check_vacated-Meets s =
      Meets-try_catch Counted (λ _ w. Grown before w.calls) _ _ _ workload_pod_count_on_node-Counted
        (λ count.
          Meets-if (ltb 0 count) _ _ (λ _. Meets-pure _ (λ w h. h.0))
            (λ none_left. Meets-pure _ (λ w h. h.1 (ground arith))))
        (λ e.
          Meets-if (is_transient env e) _ _ (λ _. Meets-pure _ (λ w h. h))
            (λ _. Meets-raise _ (λ w h. tt)))

-- When the wait for the pods of a workload returns without an error, then since it began the
-- server has listed the pods on the node that the workload's selector selects, and each of them
-- had ended.
pub wait_for_pods_off_node_vacated :
    (env : Env) (poller : Poller) (opts : Options) (ctx : Context) (wl : Workload) (w w' : World)
    → wait_for_pods_off_node env poller opts ctx wl w ≡ (ok tt, w')
    → SawVacated env opts (with_timeout (pod_vacate_timeout opts) ctx) wl w.calls w'
unfolding wait_for_pods_off_node
wait_for_pods_off_node_vacated env poller opts ctx wl w w' returned =
    let c = with_timeout (pod_vacate_timeout opts) ctx in
    Post-ok (λ _. SawVacated env opts c wl w.calls) (λ _ _. Unit) returned
      ((Meets-poll (poll_interval opts) (check_vacated env opts c wl) (λ _ u. Grown w.calls u.calls)
          (SawVacated env opts c wl w.calls) (λ _ _. Unit)
          (λ s u g.
            Meets-Checked _ _ _ (check_vacated env opts c wl) s u
              (check_vacated-Meets env opts c wl w.calls s) g)
          (λ s u g. grown _ g) (λ s u e g. tt) poller c tt).at
        w (same refl))
