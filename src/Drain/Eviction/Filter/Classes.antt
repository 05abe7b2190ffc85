-- ===== src/Drain/Eviction/Filter/Classes.antt =====
-- The classes into which the filters put the pods.
use k8s_safed.Base.{All, All-every, Some, Bool-cases, ◌⊎◌, inl, inr}
use k8s_safed.Base.{
  ℕ, ◌+◌, ◌≡◌, refl, String, Bool, true, false, Option, none, some, List, [], ◌∷◌, ◌&&◌, ◌||◌,
  arith, length, keep_if, is_some,
}
use k8s_safed.Cluster.Objects.{Pod}
use k8s_safed.Workload.{is_terminal_pod}
use k8s_safed.Drain.Eviction.Filter.{
  append_blocked, is_mirror_pod, is_daemon_set_pod, is_job_pod, has_empty_dir, is_standalone,
  is_evictable, filter_evictable, blocked_reason, blocked_eviction_pods, is_pending_deletion,
  pods_pending_deletion,
}

-- The pods that a drain leaves alone: those that have ended, those of the kubelet, and those of
-- DaemonSets if these are skipped.
abbrev pub is_exempt : Bool → Pod → Bool
is_exempt skip_daemon_sets pod =
    is_terminal_pod pod || (is_mirror_pod pod || (is_daemon_set_pod pod && skip_daemon_sets))

-- What may be evicted, said without the order of the tests.
pub record MayEvict (skip_daemon_sets force delete_empty_dir : Bool) (pod : Pod) : Type 0 where
  pub live : is_some pod.deletion_timestamp ≡ false
  pub running : is_terminal_pod pod ≡ false
  pub unmirrored : is_mirror_pod pod ≡ false
  pub daemon_set : is_daemon_set_pod pod ≡ true → skip_daemon_sets ≡ false
  pub empty_dir : has_empty_dir pod ≡ true → delete_empty_dir || force ≡ true
  pub standalone : is_standalone pod ≡ true → force ≡ true
  pub job : is_job_pod pod ≡ true → force ≡ true

-- What may not be left on a node that is drained, and may not be evicted without a flag that is not
-- set: a pod with no owner or of a Job without Force, or with an emptyDir without DeleteEmptyDir or
-- Force.
pub record NeedsFlag (skip_daemon_sets force delete_empty_dir : Bool) (pod : Pod) : Type 0 where
  pub live : is_some pod.deletion_timestamp ≡ false
  pub evictable : is_exempt skip_daemon_sets pod ≡ false
  pub unforced : force ≡ false
  pub lacks :
      (is_standalone pod ≡ true)
      ⊎ ((is_job_pod pod ≡ true) ⊎ ((has_empty_dir pod ≡ true) × (delete_empty_dir ≡ false)))

abbrev pub count_blocked : Option String → ℕ
count_blocked none = 0
count_blocked (some r) = 1

abbrev pub one : Bool → ℕ
one true = 1
one false = 0

module _ (skip_daemon_sets force delete_empty_dir : Bool) where
  pub is_evictable-MayEvict :
      (pod : Pod)
      → is_evictable skip_daemon_sets force delete_empty_dir pod ≡ true
      → MayEvict skip_daemon_sets force delete_empty_dir pod
  unfolding is_evictable
  is_evictable-MayEvict pod h = record {
    live = ground arith;
    running = ground arith;
    unmirrored = ground arith;
    daemon_set = λ d. ground arith;
    empty_dir = λ d. ground arith;
    standalone = λ d. ground arith;
    job = λ d. ground arith;
  }

  pub one_class :
      (pod : Pod)
      → one (is_exempt skip_daemon_sets pod)
          + one (is_pending_deletion skip_daemon_sets pod)
          + count_blocked (blocked_reason skip_daemon_sets force delete_empty_dir pod)
          + one (is_evictable skip_daemon_sets force delete_empty_dir pod)
        ≡ 1
  unfolding is_evictable blocked_reason is_pending_deletion
  one_class pod = ground arith

  -- A pod that neither blocks the drain nor is left alone is being deleted or is evicted.
  pub not_blocked-cases :
      (pod : Pod)
      → count_blocked (blocked_reason skip_daemon_sets force delete_empty_dir pod) ≡ 0
      → (is_exempt skip_daemon_sets pod ≡ true)
        ⊎ ((is_pending_deletion skip_daemon_sets pod ≡ true)
            ⊎ (is_evictable skip_daemon_sets force delete_empty_dir pod ≡ true))
  not_blocked-cases pod free = elim (Bool-cases (is_exempt skip_daemon_sets pod)) [
    | inl exempt ↦ inl exempt
    | inr other ↦ elim (Bool-cases (is_pending_deletion skip_daemon_sets pod)) [
      | inl pending ↦ inr (inl pending)
      | inr kept ↦ elim (Bool-cases (is_evictable skip_daemon_sets force delete_empty_dir pod)) [
        | inl evicted ↦ inr (inr evicted)
        | inr left ↦ absurd (cc (one_class pod))
      ]
    ]
  ]

  NeedsFlag-blocked :
      (pod : Pod)
      → NeedsFlag skip_daemon_sets force delete_empty_dir pod
      → count_blocked (blocked_reason skip_daemon_sets force delete_empty_dir pod) ≡ 1
  unfolding blocked_reason
  NeedsFlag-blocked pod n = ground arith

  append_blocked-empty :
      (pod : Pod) (o : Option String) (rest : List (Pod × String))
      → append_blocked skip_daemon_sets force delete_empty_dir pod o rest ≡ []
      → (count_blocked o ≡ 0) × (rest ≡ [])
  unfolding append_blocked
  append_blocked-empty pod none rest h = (refl, h)
  append_blocked-empty pod (some reason) rest h = absurd (ground arith)

  pub unblocked :
      (pods : List Pod)
      → blocked_eviction_pods skip_daemon_sets force delete_empty_dir pods ≡ []
      → All
          (λ pod. count_blocked (blocked_reason skip_daemon_sets force delete_empty_dir pod) ≡ 0)
          pods
  unfolding blocked_eviction_pods
  unblocked [] free = tt
  unblocked (pod ∷ pods) free =
      let both = append_blocked-empty pod _ _ free in (both.0, unblocked pods both.1)

  blocked_somewhere :
      (pods : List Pod)
      → All
          (λ pod. count_blocked (blocked_reason skip_daemon_sets force delete_empty_dir pod) ≡ 0)
          pods
      → Some (NeedsFlag skip_daemon_sets force delete_empty_dir) pods
      → ⊥
  blocked_somewhere [] free s = s
  blocked_somewhere (pod ∷ pods) free (inl n) =
      let blocked = NeedsFlag-blocked pod n in let none_here = free.0 in omega arith
  blocked_somewhere (pod ∷ pods) free (inr later) = blocked_somewhere pods free.1 later

  -- Such a pod makes the list of the blocked ones begin with one.
  pub NeedsFlag-first :
      (pods : List Pod)
      → Some (NeedsFlag skip_daemon_sets force delete_empty_dir) pods
      → (pod : Pod) × (reason : String) × (rest : List (Pod × String)) × (blocked_eviction_pods
            skip_daemon_sets force delete_empty_dir pods
          ≡ (pod, reason) ∷ rest)
  NeedsFlag-first pods s = first _ refl
    where
      first :
          (found : List (Pod × String))
          → blocked_eviction_pods skip_daemon_sets force delete_empty_dir pods ≡ found
          → (pod : Pod) × (reason : String) × (rest : List (Pod × String)) × (blocked_eviction_pods
                skip_daemon_sets force delete_empty_dir pods
              ≡ (pod, reason) ∷ rest)
      first [] e = absurd (blocked_somewhere pods (unblocked pods e) s)
      first ((pod, reason) ∷ rest) e = (pod, reason, rest, e)

  lengths_add :
      (pods : List Pod)
      → length (keep_if (is_exempt skip_daemon_sets) pods)
          + length (pods_pending_deletion skip_daemon_sets pods)
          + length (blocked_eviction_pods skip_daemon_sets force delete_empty_dir pods)
          + length (filter_evictable skip_daemon_sets force delete_empty_dir pods)
        ≡ length pods
  unfolding pods_pending_deletion blocked_eviction_pods filter_evictable
  lengths_add [] = refl
  lengths_add (pod ∷ pods) = ground (arith, one_class pod, lengths_add pods)

  -- For each pod, exactly one holds: it is left alone, it is being deleted, it blocks the drain, or
  -- it is evicted. The lengths of the four lists that the filters make of a list of pods add up to
  -- the length of that list.
  pub classes_partition :
      (pods : List Pod)
      → All
          (λ pod.
            one (is_exempt skip_daemon_sets pod)
              + one (is_pending_deletion skip_daemon_sets pod)
              + count_blocked (blocked_reason skip_daemon_sets force delete_empty_dir pod)
              + one (is_evictable skip_daemon_sets force delete_empty_dir pod)
            ≡ 1)
          pods
        × (length (keep_if (is_exempt skip_daemon_sets) pods)
              + length (pods_pending_deletion skip_daemon_sets pods)
              + length (blocked_eviction_pods skip_daemon_sets force delete_empty_dir pods)
              + length (filter_evictable skip_daemon_sets force delete_empty_dir pods)
            ≡ length pods)
  classes_partition pods = (All-every _ one_class pods, lengths_add pods)
