-- ===== src/Drain/WorkloadFilter/Partition.antt =====
-- What `filterWorkloads` computes: the two halves of the workloads, in their order.
use mathlib.Core.List.{append_assoc, append-nil}
use k8s_safed.Base.{
  ◌≡◌, refl, ◌∙◌, ap, String, Bool, true, false, List, [], ◌∷◌, ◌++◌, not, keep_if, arith,
  Bool-cases, inl, inr, ◌&&◌, ◌||◌,
}
use k8s_safed.Base.Maps.{Map, lookup, get_flag}
use k8s_safed.Workload.{Workload, workload_key}
use k8s_safed.Drain.Options.{Options}
use k8s_safed.Drain.WorkloadFilter.{
  is_empty_map, is_filtered_out, split_workloads, filter_workloads,
}

module _ (opts : Options) where
  -- The rule of the two flags: only what --only-workload names, if it names any, and never what
  -- --skip-workload names.
  unfoldable pub is_chosen : Workload → Bool
  is_chosen w =
      (is_empty_map opts.only_workloads || get_flag (workload_key w) opts.only_workloads)
      && not (get_flag (workload_key w) opts.skip_workloads)

  is_chosen_lem : (w : Workload) → is_filtered_out opts w ≡ not (is_chosen w)
  unfolding is_filtered_out is_chosen
  is_chosen_lem w = ground arith

  split_workloads_lem :
      (filtered protected ws : List Workload)
      → split_workloads opts (filtered, protected) ws
        ≡ (filtered ++ keep_if is_chosen ws, protected ++ keep_if (λ w. not (is_chosen w)) ws)
  unfolding split_workloads
  split_workloads_lem filtered protected [] = rw (append-nil filtered, append-nil protected) refl
  split_workloads_lem filtered protected (w ∷ ws) = elim (Bool-cases (is_chosen w)) [
    | inl chosen ↦
        rw (is_chosen_lem w, chosen)
          (split_workloads_lem (filtered ++ w ∷ []) protected ws
            ∙ ap (λ fs. (fs, protected ++ keep_if (λ w. not (is_chosen w)) ws))
                (append_assoc filtered (w ∷ []) (keep_if is_chosen ws)))
    | inr other ↦
        rw (is_chosen_lem w, other)
          (split_workloads_lem filtered (protected ++ w ∷ []) ws
            ∙ ap (λ ps. (filtered ++ keep_if is_chosen ws, ps))
                (append_assoc protected (w ∷ []) (keep_if (λ w. not (is_chosen w)) ws)))
  ]

  module _ (no_skip : is_empty_map opts.skip_workloads ≡ true)
      (no_only : is_empty_map opts.only_workloads ≡ true) where
    empty_flag : (k : String) (m : Map Bool) → is_empty_map m ≡ true → get_flag k m ≡ false
    unfolding get_flag lookup
    empty_flag k [] h = refl
    empty_flag k (e ∷ m) h = ground arith

    all_chosen : (w : Workload) → is_chosen w ≡ true
    unfolding is_chosen
    all_chosen w = ground (arith, empty_flag (workload_key w) opts.skip_workloads no_skip)

    keep_all :
        (ws : List Workload)
        → (keep_if is_chosen ws ≡ ws) × (keep_if (λ w. not (is_chosen w)) ws ≡ [])
    keep_all [] = (refl, refl)
    keep_all (w ∷ ws) = rw (all_chosen w) (ap (λ vs. w ∷ vs) (keep_all ws).0, (keep_all ws).1)

  -- `filter_workloads` returns the workloads that the two flags choose and those that they do not,
  -- each in the order of the input, also on the path that finds both flags empty.
  pub filter_workloads_partition :
      (ws : List Workload)
      → filter_workloads opts ws ≡ (keep_if is_chosen ws, keep_if (λ w. not (is_chosen w)) ws)
  unfolding filter_workloads
  filter_workloads_partition ws =
      elim (Bool-cases (is_empty_map opts.skip_workloads && is_empty_map opts.only_workloads)) [
        | inl both ↦
            let (all, none_left) = keep_all (ground arith) (ground arith) ws in
            rw (both, filter_workloads, all, none_left) refl
        | inr some ↦ rw (some, filter_workloads) (split_workloads_lem [] [] ws)
      ]
