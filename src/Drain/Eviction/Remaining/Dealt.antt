-- ===== src/Drain/Eviction/Remaining/Dealt.antt =====
-- The pods that `evict_remaining` waits for have gone once it has dealt with its candidates.
use k8s_safed.Base.{
  ◌≡◌, refl, sym, ap, ◌∙◌, inl, inr, Bool, false, List, [], ◌∷◌, ◌++◌, map, All, All-mono,
  All-append, All-Listed, All-keep_if_and, All-front, All-back, Some, Listed, keep_if,
}
use k8s_safed.Cluster.Objects.{Pod}
use k8s_safed.Cluster.Calls.{Context, Call, History, with_timeout}
use k8s_safed.Cluster.Env.{Env, Result, ok, err}
use k8s_safed.Cluster.Exec.{World, pure, ◌>>◌}
use k8s_safed.Cluster.Exec.Adds.{Added, more, nothing}
use k8s_safed.Cluster.Exec.Meets.{Post, Meets, Meets-pure, Meets-bind}
use k8s_safed.Cluster.Exec.Meets.More.{Meets-mono}
use k8s_safed.Cluster.Exec.Since.{Grown, Grown-trans, same, grown}
use k8s_safed.Cluster.Poll.{Poller}
use k8s_safed.Workload.{Workload}
use k8s_safed.Drain.Options.{Options, pod_vacate_timeout}
use k8s_safed.Drain.Eviction.Deletion.{with_uid, wait_for_pods_deleted}
use k8s_safed.Drain.Eviction.Deletion.Swept.{GoneSince, missing, replaced, since}
use k8s_safed.Drain.Eviction.Deletion.Observed.{GoneWithUid, found_in, wait_for_pods_deleted_gone}
use k8s_safed.Drain.Eviction.Remaining.{on_empty, wait_unless_dry_run, evict_all}
use k8s_safed.Drain.Eviction.Remaining.Targets.{IsTarget, evict_all-Sound}

Added-Grown : {Ok : Call → Type 0} {before h : History} → Added Ok before h → Grown before h
Added-Grown (nothing e) = same e
Added-Grown (more c o a) = grown c (Added-Grown a)

Listed-map : (f : Pod → Pod) (p : Pod) (xs : List Pod) → Listed p xs → Listed (f p) (map f xs)
Listed-map f p [] l = absurd l
Listed-map f p (x ∷ xs) (inl e) = inl (ap f e)
Listed-map f p (x ∷ xs) (inr l) = inr (Listed-map f p xs l)

-- What holds of some pod of a list holds of some pod of a list that has its pods.
Some-map :
    (P Q : Pod → Type 0) (f : Pod → Pod) (all xs : List Pod)
    → ((p : Pod) → P p → Q p)
    → All (λ p. Listed p all) xs
    → Some P (map f xs)
    → Some Q (map f all)
Some-map P Q f all [] g l s = absurd s
Some-map P Q f all (x ∷ xs) g l (inl h) =
    found_in Q (f x) (map f all) (Listed-map f x all l.0) (g _ h)
Some-map P Q f all (x ∷ xs) g l (inr s) = Some-map P Q f all xs g l.1 s

module _ (env : Env) (ctx : Context) {before mid : History} (g : Grown before mid) where
  GoneSince-earlier :
      {pod : Pod} {now : History} → GoneSince env ctx mid pod now → GoneSince env ctx before pod now
  GoneSince-earlier (missing e answer gone later) = missing e answer gone (Grown-trans g later)
  GoneSince-earlier (replaced current answer gone later) =
      replaced current answer gone (Grown-trans g later)
  GoneSince-earlier (since c h) = since c (GoneSince-earlier h)

  earlier :
      (all pods : List Pod) (pod : Pod) (now : History)
      → All (λ p. Listed p all) pods
      → GoneWithUid env ctx mid now pods pod
      → GoneWithUid env ctx before now all pod
  earlier all pods pod now l gone =
      Some-map _ _ with_uid all pods (λ p h. (h.0, GoneSince-earlier h.1)) l gone

pub keep_if-Listed :
    (keep : Pod → Bool) (pods : List Pod) → All (λ p. Listed p pods) (keep_if keep pods)
keep_if-Listed keep pods =
    All-mono _ _ _ (λ p h. h.0) (All-keep_if_and (λ p. Listed p pods) keep pods (All-Listed pods))

module _ (env : Env) (poller : Poller) (opts : Options) (ctx : Context) (before : History)
    (wet : opts.dry_run ≡ false) (all : List Pod) where
  abbrev Gone : Pod → World → Type 0
  Gone pod w = GoneWithUid env (with_timeout (pod_vacate_timeout opts) ctx) before w.calls all pod

  abbrev AllGone : List Pod → World → Type 0
  AllGone pods w = All (λ p. Gone p w) pods

  waits :
      (pods : List Pod)
      → wait_unless_dry_run env poller opts ctx pods
        ≡ wait_for_pods_deleted env poller opts ctx pods (pod_vacate_timeout opts)
  unfolding wait_unless_dry_run
  waits pods = rw wet refl

  waited_for :
      (pods : List Pod) (r : Result Unit) (w w' : World)
      → All (λ p. Listed p all) pods
      → Grown before w.calls
      → wait_unless_dry_run env poller opts ctx pods w ≡ (r, w')
      → Post (λ _. AllGone pods) (λ _ _. Unit {0}) (r, w')
  waited_for pods (err e) w w' l g returned = tt
  waited_for pods (ok tt) w w' l g returned =
      All-mono _ _ pods (λ p gone. earlier env _ g all pods p w'.calls l gone)
        (wait_for_pods_deleted_gone env poller opts ctx pods (pod_vacate_timeout opts) w w'
          (sym (ap (λ m. m w) (waits pods)) ∙ returned))

  wait_unless_dry_run-AllGone :
      (pods : List Pod)
      → All (λ p. Listed p all) pods
      → Meets
          (λ w. Grown before w.calls)
          (λ _. AllGone pods)
          (λ _ _. Unit {0})
          (wait_unless_dry_run env poller opts ctx pods)
  wait_unless_dry_run-AllGone pods l = record {
    at = λ w g.
        let (r, w') = wait_unless_dry_run env poller opts ctx pods w in
        waited_for pods r w w' l g refl;
  }

  -- After the candidates were dealt with, those that were being deleted and those that were evicted
  -- have gone.
  abbrev pub Dealt : List Pod → List Pod → World → Type 0
  Dealt waiting evictable w = AllGone waiting w × AllGone evictable w

  nothing_evicted :
      (waiting : List Pod)
      → All (λ p. Listed p all) waiting
      → Meets
          (λ w. Grown before w.calls)
          (λ _. Dealt waiting [])
          (λ _ _. Unit {0})
          (on_empty waiting (pure tt) (wait_unless_dry_run env poller opts ctx waiting))
  nothing_evicted [] l = Meets-pure tt (λ w g. (tt, tt))
  nothing_evicted (p ∷ waiting) l =
      Meets-mono (λ r w gone. (gone, tt)) (λ e w h. h) (wait_unless_dry_run-AllGone _ l)

  evicted_first :
      (waiting evictable : List Pod)
      → All (λ p. Listed p all) (waiting ++ evictable)
      → Meets
          (λ w. Grown before w.calls)
          (λ _ w. Grown before w.calls)
          (λ _ _. Unit {0})
          (evict_all env opts ctx evictable)
      → Meets
          (λ w. Grown before w.calls)
          (λ _. Dealt waiting evictable)
          (λ _ _. Unit {0})
          (evict_all env opts ctx evictable
            >> wait_unless_dry_run env poller opts ctx (waiting ++ evictable))
  evicted_first waiting evictable l evicts = Meets-bind _ _ _ evicts (λ _.
      Meets-mono
        (λ r w gone. (All-front _ waiting evictable gone, All-back _ waiting evictable gone))
        (λ e w h. h) (wait_unless_dry_run-AllGone (waiting ++ evictable) l))

  pub on_evictable :
      (waiting evictable : List Pod)
      → All (λ p. Listed p all) waiting
      → All (λ p. Listed p all) evictable
      → Meets
          (λ w. Grown before w.calls)
          (λ _ w. Grown before w.calls)
          (λ _ _. Unit {0})
          (evict_all env opts ctx evictable)
      → Meets
          (λ w. Grown before w.calls)
          (λ _. Dealt waiting evictable)
          (λ _ _. Unit {0})
          (on_empty evictable
            (on_empty waiting (pure tt) (wait_unless_dry_run env poller opts ctx waiting))
            (evict_all env opts ctx evictable
              >> wait_unless_dry_run env poller opts ctx (waiting ++ evictable)))
  on_evictable waiting [] l m evicts = nothing_evicted waiting l
  on_evictable waiting (p ∷ evictable) l m evicts =
      evicted_first waiting (p ∷ evictable) (All-append _ waiting _ l m) evicts

  pub evict_all-Grown :
      (protected : List Workload) (pods evictable : List Pod)
      → All (IsTarget env opts protected pods) evictable
      → Meets
          (λ w. Grown before w.calls)
          (λ _ w. Grown before w.calls)
          (λ _ _. Unit {0})
          (evict_all env opts ctx evictable)
  evict_all-Grown protected pods evictable targets = record {
    at = λ w g.
        let evicts = evict_all-Sound env opts protected pods w.calls ctx evictable targets in
        let (r, w') = evict_all env opts ctx evictable w in
        Post-one_side r w' (Grown-trans g (Added-Grown (evicts.at w (nothing refl))));
  }
    where
      Post-one_side :
          (r : Result Unit) (w : World)
          → Grown before w.calls
          → Post (λ _ u. Grown before u.calls) (λ _ _. Unit {0}) (r, w)
      Post-one_side (ok a) w g = g
      Post-one_side (err e) w g = tt
