-- ===== src/Drain/Eviction/Deletion/Observed.antt =====
-- What the wait for deleted pods has seen when it returns without an error.
use k8s_safed.Base.{
  ◌≡◌, refl, sym, subst, ◌∙◌, inl, inr, String, Bool, true, false, List, [], ◌∷◌, ◌&&◌, ◌==◌, map,
  All, All-mono, All-Listed_at, Some, Listed, All-Listed, Bool-cases, arith, eq_iff,
}
use k8s_safed.Cluster.Objects.{Duration, Pod}
use k8s_safed.Cluster.Calls.{Context, Call, History, with_timeout}
use k8s_safed.Cluster.Env.{Env, ok}
use k8s_safed.Cluster.Exec.{World}
use k8s_safed.Cluster.Exec.Meets.{Post-ok, Meets, Meets-pure, Meets-bind}
use k8s_safed.Cluster.Exec.Meets.More.{Meets-and, Meets-mono}
use k8s_safed.Cluster.Exec.Since.{Grown, same, grown, Outcome, Meets-Checked}
use k8s_safed.Cluster.Poll.{Poller, paused}
use k8s_safed.Cluster.Poll.Rules.{Meets-poll}
use k8s_safed.Drain.Options.{Options, poll_interval}
use k8s_safed.Drain.Eviction.Deletion.{
  with_uid, see, see_all, no_pod, check_deleted, wait_for_pods_deleted,
}
use k8s_safed.Drain.Eviction.Deletion.Swept.{
  GoneSince, GoneOr, GoneOr-ReadClosed, sweep-Keeps, sweep-Swept,
}

module _ (env : Env) (ctx : Context) (before : History) where
  module _ (start : List Pod) where
    abbrev Open : List Pod → World → Type 0
    Open seen w = Grown before w.calls × All (GoneOr env ctx before seen w.calls) start

    abbrev AllGone : World → Type 0
    AllGone w = All (λ p. GoneSince env ctx before p w.calls) start

    carried :
        (seen left : List Pod) (h : History)
        → All (GoneOr env ctx before left h) seen
        → All (GoneOr env ctx before seen h) start
        → All (GoneOr env ctx before left h) start
    carried seen left h swept all = All-mono _ _ start (λ p g. carry g) all
      where
        carry : {p : Pod} → GoneOr env ctx before seen h p → GoneOr env ctx before left h p
        carry (inl g) = inl g
        carry (inr l) = All-Listed_at _ seen swept l

    nothing_left :
        (left : List Pod) (h : History)
        → no_pod left ≡ true
        → All (GoneOr env ctx before left h) start
        → All (λ p. GoneSince env ctx before p h) start
    nothing_left [] h none_left all = All-mono _ _ start (λ p g. only_gone g) all
      where
        only_gone : {p : Pod} → GoneOr env ctx before [] h p → GoneSince env ctx before p h
        only_gone (inl g) = g
        only_gone (inr l) = absurd l
    nothing_left (p ∷ left) h none_left all = absurd (ground arith)

    outcome :
        (left : List Pod) (b : Bool) (w : World)
        → (b ≡ true → no_pod left ≡ true)
        → Open left w
        → Outcome Open AllGone (λ _ _. Unit {0}) (left, b) w
    outcome left true w only h = nothing_left left w.calls (only refl) h.1
    outcome left false w only h = h

    both_true : (a b : Bool) → a && b ≡ true → b ≡ true
    both_true a b h = ground arith

    check_deleted-Meets :
        (seen : List Pod)
        → Meets
            (Open seen)
            (Outcome Open AllGone (λ _ _. Unit {0}))
            (λ _ _. Unit {0})
            (check_deleted env ctx seen)
    unfolding check_deleted
    check_deleted-Meets seen =
        Meets-bind (λ r. Open r.0) _ _
          (Meets-mono (λ r w both. (both.0.0, carried seen r.0 w.calls both.0.1 both.1))
            (λ e w both. tt)
            (Meets-and _ (sweep-Swept env ctx before seen)
              (sweep-Keeps env ctx before (GoneOr-ReadClosed env ctx before seen start) seen)))
          (λ r. Meets-pure _ (λ w h. outcome r.0 _ w (both_true _ _) h))

    waits_Open : (seen : List Pod) (w : World) (d : Duration) → Open seen w → Open seen (paused d w)
    waits_Open seen w d h =
        (grown _ h.0, (GoneOr-ReadClosed env ctx before seen start).reads (Call.pause d) tt w h.1)

-- Some pod of the list has this UID.
abbrev HasUid : String → List Pod → Type 0
HasUid uid = Some (λ p. p.uid ≡ uid)

see-HasUid :
    (uid : String) (pod : Pod) (seen : List Pod) → HasUid uid seen → HasUid uid (see pod seen)
unfolding see
see-HasUid uid pod [] h = absurd h
see-HasUid uid pod (p ∷ seen) (inl e) = elim (Bool-cases (p.uid == pod.uid)) [
  | inl over ↦ rw over (inl (sym ((eq_iff p.uid pod.uid).0 over) ∙ e))
  | inr other ↦ rw other (inl e)
]
see-HasUid uid pod (p ∷ seen) (inr h) = elim (Bool-cases (p.uid == pod.uid)) [
  | inl over ↦ rw over (inr h)
  | inr other ↦ rw other (inr (see-HasUid uid pod seen h))
]

see-has_it : (pod : Pod) (seen : List Pod) → HasUid pod.uid (see pod seen)
unfolding see
see-has_it pod [] = inl refl
see-has_it pod (p ∷ seen) = elim (Bool-cases (p.uid == pod.uid)) [
  | inl over ↦ rw over (inl refl)
  | inr other ↦ rw other (inr (see-has_it pod seen))
]

see-All :
    (P : Pod → Type 0) (pod : Pod) (seen : List Pod) → P pod → All P seen → All P (see pod seen)
unfolding see
see-All P pod [] h all = (h, tt)
see-All P pod (p ∷ seen) h all = elim (Bool-cases (p.uid == pod.uid)) [
  | inl over ↦ rw over (h, all.1)
  | inr other ↦ rw other (all.0, see-All P pod seen h all.1)
]

see_all-HasUid :
    (uid : String) (seen pods : List Pod) → HasUid uid seen → HasUid uid (see_all seen pods)
unfolding see_all
see_all-HasUid uid seen [] h = h
see_all-HasUid uid seen (pod ∷ pods) h =
    see_all-HasUid uid (see (with_uid pod) seen) pods (see-HasUid uid (with_uid pod) seen h)

see_all-each :
    (seen pods : List Pod) → All (λ pod. HasUid (with_uid pod).uid (see_all seen pods)) pods
unfolding see_all
see_all-each seen [] = tt
see_all-each seen (pod ∷ pods) = (
  see_all-HasUid _ (see (with_uid pod) seen) pods (see-has_it (with_uid pod) seen),
  see_all-each (see (with_uid pod) seen) pods,
)

see_all-All :
    (P : Pod → Type 0) (seen pods : List Pod)
    → All P seen
    → All P (map with_uid pods)
    → All P (see_all seen pods)
unfolding see_all
see_all-All P seen [] all more = all
see_all-All P seen (pod ∷ pods) all more =
    see_all-All P (see (with_uid pod) seen) pods (see-All P (with_uid pod) seen more.0 all) more.1

pub found_in : (Q : Pod → Type 0) (p : Pod) (pods : List Pod) → Listed p pods → Q p → Some Q pods
found_in Q p [] l q = l
found_in Q p (x ∷ pods) (inl e) q = inl (subst Q (sym e) q)
found_in Q p (x ∷ pods) (inr l) q = inr (found_in Q p pods l q)

-- A pod of the list with the UID of this one has gone.
abbrev pub GoneWithUid : Env → Context → History → History → List Pod → Pod → Type 0
GoneWithUid env ctx before now pods pod =
    Some (λ p. (p.uid ≡ (with_uid pod).uid) × GoneSince env ctx before p now) (map with_uid pods)

of_seen :
    (env : Env) (ctx : Context) (before now : History) (pods : List Pod) (pod : Pod)
    (seen : List Pod)
    → All (λ p. GoneSince env ctx before p now) seen
    → All (λ p. Listed p (map with_uid pods)) seen
    → HasUid (with_uid pod).uid seen
    → GoneWithUid env ctx before now pods pod
of_seen env ctx before now pods pod [] gone listed has = absurd has
of_seen env ctx before now pods pod (p ∷ seen) gone listed (inl e) =
    found_in _ p (map with_uid pods) listed.0 (e, gone.0)
of_seen env ctx before now pods pod (p ∷ seen) gone listed (inr has) =
    of_seen env ctx before now pods pod seen gone.1 listed.1 has

-- When `wait_for_pods_deleted` returns without an error, then for each pod that it was to wait for,
-- a pod with the same UID, which is that pod where UIDs are distinct, has gone: since it began the
-- server has said that there is no such pod, or has returned one with another UID, or one that has
-- ended.
pub wait_for_pods_deleted_gone :
    (env : Env) (poller : Poller) (opts : Options) (ctx : Context) (pods : List Pod)
    (timeout : Duration) (w w' : World)
    → wait_for_pods_deleted env poller opts ctx pods timeout w ≡ (ok tt, w')
    → All (GoneWithUid env (with_timeout timeout ctx) w.calls w'.calls pods) pods
unfolding wait_for_pods_deleted
wait_for_pods_deleted_gone env poller opts ctx [] timeout w w' returned = tt
wait_for_pods_deleted_gone env poller opts ctx (pod ∷ pods) timeout w w' returned =
    let c = with_timeout timeout ctx in
    let all = pod ∷ pods in
    let seen = see_all [] all in
    let gone =
      Post-ok (λ _. AllGone env c w.calls seen) (λ _ _. Unit {0}) returned
        ((Meets-poll (poll_interval opts) (check_deleted env c) (Open env c w.calls seen)
            (AllGone env c w.calls seen) (λ _ _. Unit {0})
            (λ s u g.
              Meets-Checked _ _ _ (check_deleted env c) s u
                (check_deleted-Meets env c w.calls seen s) g)
            (λ s u g. waits_Open env c w.calls seen s u _ g) (λ s u e g. tt) poller c seen).at
          w (same refl, All-mono _ _ seen (λ p l. inr l) (All-Listed seen))) in
    All-mono _ _ all
      (λ p has.
        of_seen env c w.calls w'.calls all p seen gone
          (see_all-All _ [] all tt (All-Listed (map with_uid all))) has)
      (see_all-each [] all)
