-- ===== src/Drain/Eviction/Deletion/Swept.antt =====
-- What a sweep over the pods that are waited for has seen.
use k8s_safed.Base.{
  ◌≡◌, refl, ◌⊎◌, inl, inr, Bool, true, List, [], ◌∷◌, All, All-mono, Listed, All-Listed,
}
use k8s_safed.Cluster.Objects.{Pod}
use k8s_safed.Cluster.Calls.{Context, Call, History, Request}
use k8s_safed.Cluster.Env.{Env, Error, Result, ok, err}
use k8s_safed.Cluster.Errors.{is_transient}
use k8s_safed.Cluster.Exec.{World, Exec, ask}
use k8s_safed.Cluster.Exec.Keeps.{
  Keeps, Keeps-bind, Keeps-pure, Keeps-raise, Keeps-if, Keeps-try_catch,
}
use k8s_safed.Cluster.Exec.Meets.{
  Post, Meets, Meets-if, Meets-pure, Meets-raise, Meets-try_catch, Meets-bind,
}
use k8s_safed.Cluster.Exec.Meets.More.{Meets-and, Meets-mono}
use k8s_safed.Cluster.Exec.Since.{Grown, grown}
use k8s_safed.Cluster.Reads.{ReadClosed, get_pod-Keeps}
use k8s_safed.Cluster.Requests.{get_pod}
use k8s_safed.Drain.Eviction.Deletion.{has_gone, sweep_one, sweep}

module _ (env : Env) (ctx : Context) (before : History) where
  abbrev question : Pod → Call
  question pod = Call.request ctx (Request.get_pod pod.namespace pod.name)

  -- Since `before`, the server has said that the pod is not there, or has returned an object in its
  -- place that is another one or has ended.
  pub data GoneSince (pod : Pod) : History → Type 0 where
    missing :
        {h : History} (e : Error)
        → env.pod_of h ctx pod.namespace pod.name ≡ err e
        → env.status.is_not_found e ≡ true
        → Grown before h
        → GoneSince pod (question pod ∷ h)
    replaced :
        {h : History} (current : Pod)
        → env.pod_of h ctx pod.namespace pod.name ≡ ok current
        → has_gone pod current ≡ true
        → Grown before h
        → GoneSince pod (question pod ∷ h)
    since : {h : History} (c : Call) → GoneSince pod h → GoneSince pod (c ∷ h)

  -- What the last call was, and its answer.
  pub data Answered (pod : Pod) (r : Result Pod) : History → Type 0 where
    just_now :
        {h : History}
        → env.pod_of h ctx pod.namespace pod.name ≡ r
        → Grown before h
        → Answered pod r (question pod ∷ h)

  Answered-Grown : {pod : Pod} {r : Result Pod} {h : History} → Answered pod r h → Grown before h
  Answered-Grown (just_now e g) = grown _ g

  Answered-replaced :
      {pod : Pod} {current : Pod} {h : History}
      → Answered pod (ok current) h
      → has_gone pod current ≡ true
      → GoneSince pod h
  Answered-replaced (just_now e g) gone = replaced _ e gone g

  Answered-missing :
      {pod : Pod} {e : Error} {h : History}
      → Answered pod (err e) h
      → env.status.is_not_found e ≡ true
      → GoneSince pod h
  Answered-missing (just_now e g) gone = missing _ e gone g

  Post-Answered :
      (pod : Pod) (r : Result Pod) (w : World)
      → env.pod_of w.calls ctx pod.namespace pod.name ≡ r
      → Grown before w.calls
      → Post
          (λ current u. Answered pod (ok current) u.calls)
          (λ e u. Answered pod (err e) u.calls)
          (r, record w { calls = question pod ∷ w.calls })
  Post-Answered pod (ok current) w e g = just_now e g
  Post-Answered pod (err x) w e g = just_now e g

  get_pod-Answered :
      (pod : Pod)
      → Meets
          (λ w. Grown before w.calls)
          (λ current u. Answered pod (ok current) u.calls)
          (λ e u. Answered pod (err e) u.calls)
          (get_pod env ctx pod.namespace pod.name)
  unfolding ask
  get_pod-Answered pod = record { at = λ w g. Post-Answered pod _ w refl g }

  -- What a reading keeps, and a pod that has gone stays so.
  module _ {P : World → Type 0} (closed : ReadClosed P) where
    pub sweep-Keeps : (pods : List Pod) → Keeps P (sweep env ctx pods)
    unfolding sweep sweep_one
    sweep-Keeps [] = Keeps-pure _
    sweep-Keeps (pod ∷ pods) =
        let rest = sweep-Keeps pods in
        Keeps-try_catch _ _ _ (get_pod-Keeps closed env ctx _ _)
          (λ current.
            Keeps-if (has_gone pod current) _ _ (λ _. rest)
              (λ _. Keeps-bind _ _ rest (λ r. Keeps-pure _)))
          (λ e.
            Keeps-if (env.status.is_not_found e) _ _ (λ _. rest)
              (λ _. Keeps-if (is_transient env e) _ _ (λ _. Keeps-pure _) (λ _. Keeps-raise _)))

  abbrev pub GoneOr : List Pod → History → Pod → Type 0
  GoneOr left h pod = GoneSince pod h ⊎ Listed pod left

  GoneSince-ReadClosed : (pod : Pod) → ReadClosed (λ w. GoneSince pod w.calls)
  GoneSince-ReadClosed pod = record { reads = λ c r w g. since c g }

  pub GoneOr-ReadClosed : (left pods : List Pod) → ReadClosed (λ w. All (GoneOr left w.calls) pods)
  GoneOr-ReadClosed left pods = record {
    reads = λ c r w all. All-mono _ _ pods (λ p g. later_gone c g) all;
  }
    where
      later_gone : {h : History} {p : Pod} (c : Call) → GoneOr left h p → GoneOr left (c ∷ h) p
      later_gone c (inl g) = inl (since c g)
      later_gone c (inr l) = inr l

  -- After a sweep, each pod has gone or is among those that are left.
  abbrev pub Swept : List Pod → List Pod × Bool → World → Type 0
  Swept pods r w = Grown before w.calls × All (GoneOr r.0 w.calls) pods

  also_gone :
      (pod : Pod) (pods : List Pod) (m : Exec (List Pod × Bool))
      → Meets (λ w. Grown before w.calls) (Swept pods) (λ _ _. Unit {0}) m
      → Keeps (λ w. GoneSince pod w.calls) m
      → Meets
          (λ w. Grown before w.calls × GoneSince pod w.calls)
          (Swept (pod ∷ pods))
          (λ _ _. Unit {0})
          m
  also_gone pod pods m h k =
      Meets-mono (λ r w both. (both.0.0, (inl both.1, both.0.1))) (λ e w both. tt) (Meets-and m h k)

  -- The pod stays, with those that are left.
  also_left :
      (pod : Pod) (pods left : List Pod) (h : History)
      → All (GoneOr left h) pods
      → All (GoneOr (pod ∷ left) h) (pod ∷ pods)
  also_left pod pods left h all = (inr (inl refl), All-mono _ _ pods (λ p g. one_more g) all)
    where
      one_more : {p : Pod} → GoneOr left h p → GoneOr (pod ∷ left) h p
      one_more (inl g) = inl g
      one_more (inr l) = inr (inr l)

  pub sweep-Swept :
      (pods : List Pod)
      → Meets (λ w. Grown before w.calls) (Swept pods) (λ _ _. Unit {0}) (sweep env ctx pods)
  unfolding sweep sweep_one
  sweep-Swept [] = Meets-pure _ (λ w g. (g, tt))
  sweep-Swept (pod ∷ pods) =
      let rest = sweep-Swept pods in
      let gone_rest = also_gone pod pods _ rest (sweep-Keeps (GoneSince-ReadClosed pod) pods) in
      Meets-try_catch (λ current w. Answered pod (ok current) w.calls)
        (λ e w. Answered pod (err e) w.calls) _ _ _ (get_pod-Answered pod)
        (λ current.
          Meets-if (has_gone pod current) _ _
            (λ gone. record {
              at = λ w a. gone_rest.at w (Answered-Grown a, Answered-replaced a gone);
            })
            (λ stays. record {
              at = λ w a.
                  (Meets-bind (Swept pods) _ _ rest
                      (λ r. Meets-pure _ (λ u s. (s.0, also_left pod pods r.0 u.calls s.1)))).at
                    w (Answered-Grown a);
            }))
        (λ e.
          Meets-if (env.status.is_not_found e) _ _
            (λ gone. record {
              at = λ w a. gone_rest.at w (Answered-Grown a, Answered-missing a gone);
            })
            (λ other.
              Meets-if (is_transient env e) _ _
                (λ again. Meets-pure _ (λ w a. (
                  Answered-Grown a,
                  All-mono _ _ (pod ∷ pods) (λ p l. inr l) (All-Listed (pod ∷ pods)),
                )))
                (λ fatal. Meets-raise _ (λ w a. tt))))
