-- ===== src/Drain/Eviction/Retry/Backoff.antt =====
-- The waits between two evictions of a pod.
use k8s_safed.Base.{◌≡◌, ◌⊎◌, inl, inr, ◌∷◌, refl, ℕ, zero, suc, Option, none, some, arith}
use k8s_safed.Base.Int.{pos, negsuc, ◌≤ℤ◌, ◌<ℤ◌}
use k8s_safed.Cluster.Objects.{Duration, Pod}
use k8s_safed.Cluster.Calls.{Context, Call, History, Request}
use k8s_safed.Cluster.Env.{Env, Error}
use k8s_safed.Cluster.Exec.{World, Exec, Done, raise, gets}
use k8s_safed.Cluster.Exec.Meets.{
  Meets, Meets-if, Meets-pure, Meets-raise, Meets-bind, Meets-try_catch,
}
use k8s_safed.Cluster.Exec.Meets.More.{Meets-ask, Meets-mono, Post-one}
use k8s_safed.Drain.Options.{Options, pdb_retry_interval}
use k8s_safed.Drain.Eviction.Retry.{
  max_interval, next_interval, build_eviction, settle, timed_out, or_timed_out, request_eviction,
  is_budget_block, evict_round, evict_loop, evict_with_pdb_retry,
}

-- Positive, and at most a minute.
abbrev pub IsInterval : Duration → Type 0
IsInterval d = (pos 0 <ℤ d) × (d ≤ℤ max_interval)

next_interval-grows :
    (d : Duration) → IsInterval d → IsInterval (next_interval d) × (d ≤ℤ next_interval d)
unfolding next_interval
next_interval-grows (pos d) h = ground arith
next_interval-grows (negsuc d) h = ground arith

-- An eviction of the pod.
abbrev pub IsEvictionOf : Options → Pod → Call → Type 0
IsEvictionOf opts pod (Call.request ctx (Request.evict_pod ns name grace)) =
    (ns ≡ pod.namespace) × ((name ≡ pod.name) × (grace ≡ build_eviction opts.grace_period))
IsEvictionOf opts pod (Call.request ctx r) = ⊥
IsEvictionOf opts pod (Call.pause d) = ⊥
IsEvictionOf opts pod (Call.file op) = ⊥

module _ (opts : Options) (pod : Pod) (least : Duration) (before : History) where
  -- The calls since `before` are evictions of the pod and waits in turn. In `Ready d` an eviction
  -- may follow, and the last wait was of `d`; in `Asked d` a wait may follow.
  mutual
    pub data Ready : Duration → History → Type 0 where
      begun : Ready least before
      waited :
          {d : Duration} {h : History} (later : Duration)
          → d ≤ℤ later
          → IsInterval later
          → Asked d h
          → Ready later (Call.pause later ∷ h)

    pub data Asked : Duration → History → Type 0 where
      evicted :
          {d : Duration} {h : History} (c : Call)
          → IsEvictionOf opts pod c
          → Ready d h
          → Asked d (c ∷ h)

  -- Evictions and waits in turn, the last of them an eviction or a wait.
  abbrev pub InTurn : History → Type 0
  InTurn h = (d : Duration) × (Ready d h ⊎ Asked d h)

module _ (env : Env) (opts : Options) (pod : Pod) (least : Duration) (before : History) where
  abbrev Polite : World → Type 0
  Polite w = InTurn opts pod least before w.calls

  -- After a wait of this length, or one that is no longer.
  abbrev ReadyFor : Duration → World → Type 0
  ReadyFor d w = (last : Duration) × ((last ≤ℤ d) × Ready opts pod least before last w.calls)

  abbrev AskedFor : Duration → World → Type 0
  AskedFor d w = (last : Duration) × ((last ≤ℤ d) × Asked opts pod least before last w.calls)

  abbrev Loops : Duration → Exec Done → Type 0
  Loops d m = Meets (ReadyFor d) (λ _. Polite) (λ _. Polite) m

  stops :
      {A : Type 0} (d : Duration) (e : Error)
      → Meets {A = A} (ReadyFor d) (λ _. Polite) (λ _. Polite) (raise e)
  stops d e = Meets-raise e (λ w h. (h.0, inl h.1.1))

  settle-Polite :
      (d : Duration) (e : Error)
      → Meets (AskedFor d) (λ _. Polite) (λ _. Polite) (settle env opts e)
  unfolding settle
  settle-Polite d e =
      Meets-if (env.status.is_not_found e) _ _ (λ _. Meets-pure tt (λ w h. (h.0, inr h.1.1)))
        (λ _. Meets-raise _ (λ w h. (h.0, inr h.1.1)))

  or_timed_out-Polite :
      (d : Duration) (again : Exec Done) (o : Option Error)
      → Loops d again
      → Loops d (or_timed_out env opts again o)
  unfolding or_timed_out timed_out
  or_timed_out-Polite d again none k = k
  or_timed_out-Polite d again (some e) k = stops d _

  request_eviction-Asked :
      (c : Context) (d : Duration)
      → Meets (ReadyFor d) (λ _. AskedFor d) (λ _. AskedFor d) (request_eviction env opts c pod)
  unfolding request_eviction
  request_eviction-Asked c d =
      Meets-ask _ _ (λ w h. (h.0, (h.1.0, evicted _ (refl, (refl, refl)) h.1.1)))

  evict_round-Polite :
      (again : Exec Done) (c : Context) (d : Duration)
      → IsInterval d
      → Loops d again
      → Loops d (evict_round env opts again c pod d)
  unfolding evict_round
  evict_round-Polite again c d i k =
      Meets-try_catch (λ _. AskedFor d) (λ _. AskedFor d) _ _ _ (request_eviction-Asked c d)
        (λ done. Meets-pure done (λ w h. (h.0, inr h.1.1)))
        (λ e.
          Meets-if (is_budget_block env opts e) _ _
            (λ _.
              Meets-bind (λ _. ReadyFor d) _ _
                (Meets-mono (λ _ w h. h) (λ e w h. (h.0, inl h.1.1))
                  (Meets-ask _ _ (λ w h. (d, (omega arith, waited d h.1.0 i h.1.1)))))
                (λ o. or_timed_out-Polite d again o k))
            (λ _. settle-Polite d e))

  ReadyFor-mono : (d e : Duration) {m : Exec Done} → d ≤ℤ e → Loops e m → Loops d m
  ReadyFor-mono d e l k = record { at = λ w h. k.at w (h.0, (omega (arith, h.1.0, l), h.1.1)) }

  evict_loop-Polite :
      (rounds : ℕ) (c : Context) (d : Duration)
      → IsInterval d
      → Loops d (evict_loop env opts rounds c pod d)
  unfolding evict_loop timed_out
  evict_loop-Polite zero c d i = evict_round-Polite _ c d i (stops d _)
  evict_loop-Polite (suc n) c d i =
      let (bounded, grows) = next_interval-grows d i in
      evict_round-Polite _ c d i
        (ReadyFor-mono d _ grows (evict_loop-Polite n c (next_interval d) bounded))

-- With a retry interval that is positive and at most a minute, the calls that `evict_with_pdb_retry`
-- makes are evictions of its pod and waits in turn, an eviction first: between two evictions there
-- is a wait. Each wait is at least that interval, at least as long as the wait before it, and at
-- most a minute: the doubling neither overflows nor passes the cap.
pub evict_with_pdb_retry-InTurn :
    (env : Env) (opts : Options) (ctx : Context) (pod : Pod) (w : World)
    → IsInterval (pdb_retry_interval opts)
    → InTurn opts pod
        (pdb_retry_interval opts)
        w.calls
        (evict_with_pdb_retry env opts ctx pod w).1.calls
unfolding evict_with_pdb_retry gets
evict_with_pdb_retry-InTurn env opts ctx pod w i =
    let least = pdb_retry_interval opts in
    let (r, w') = evict_with_pdb_retry env opts ctx pod w in
    Post-one (Polite env opts pod least w.calls) r w' (
      (Meets-bind (λ _. ReadyFor env opts pod least w.calls least) _ _ (record { at = λ u h. h })
          (λ rounds. evict_loop-Polite env opts pod least w.calls rounds _ least i)).at
        w (least, (omega arith, begun)))
