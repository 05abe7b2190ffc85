-- ===== src/Workload/Finder/Distinct.antt =====
-- `FindForNode` returns each workload once, and only workloads that a rolling restart can treat.
use mathlib.Core.List.{
  Mem, Nodup, Nodup-cons, Nodup-nil, Perm, perm_append_singleton, map-append, mem-cons,
}
use mathlib.Core.List.Perm
use mathlib.Core.Logic.Or
use mathlib.Core.HLevel.{⊥_prop}
use mathlib.Core.List.{not-mem-nil}
use k8s_safed.Base.{
  ◌≡◌, String, false, Option, none, some, inl, inr, List, [], ◌∷◌, map, arith, any, All, All-append,
  Bool-cases, ◌==◌, eq_iff,
}
use k8s_safed.Cluster.Objects.{Pod}
use k8s_safed.Cluster.Calls.{Context}
use k8s_safed.Cluster.Env.{Env, ok}
use k8s_safed.Cluster.Exec.{World}
use k8s_safed.Cluster.Exec.Meets.{
  Returns, Returns-pure, Returns-bind, Returns-in_context, Returns-any, Returns-ok,
}
use k8s_safed.Workload.{Workload, workload_key, is_terminal_pod}
use k8s_safed.Workload.Finder.{Finder, empty_finder, note_workload, resolve_pods, find_for_node}
use k8s_safed.Workload.Finder.Resolve.{
  IsRollable, IsFiled, IsFound, FoundWell, resolve_owner-FoundWell,
}

abbrev pub keys : List Workload → List String
keys ws = map workload_key ws

not_mem_of_any : (k : String) (seen : List String) → any (λ j. j == k) seen ≡ false → ¬ Mem k seen
not_mem_of_any k [] h m = not-mem-nil m
not_mem_of_any k (j ∷ seen) h m =
    Or.elim ⊥_prop (mem-cons.0 m) (λ e. ground (arith, eq_iff j k))
      (not_mem_of_any k seen (ground arith))

-- The keys that were seen are those of the workloads, each once.
record Noted (acc : List String × List Workload) : Type 0 where
  same : Perm acc.0 (keys acc.1)
  once : Nodup acc.0
  rollable : All IsRollable acc.1

note_workload-Noted :
    (acc : List String × List Workload) (found : Option Workload)
    → IsFound found
    → Noted acc
    → Noted (note_workload acc found)
unfolding note_workload
note_workload-Noted acc none f n = n
note_workload-Noted acc (some w) f n = elim (Bool-cases (any (λ k. k == workload_key w) acc.0)) [
  | inl known ↦ rw (known, note_workload) n
  | inr new ↦
      rw (new, note_workload)
        (record {
          same =
              rw (map-append workload_key acc.1 (w ∷ []))
                (Perm.trans (Perm.cons _ n.same) (Perm.symm (perm_append_singleton _ _)));
          once = Nodup-cons.1 (not_mem_of_any _ acc.0 new, n.once);
          rollable = All-append IsRollable acc.1 (w ∷ []) n.rollable (f, tt);
        })
]

resolve_pods_distinct :
    (env : Env) (ctx : Context) (f : Finder) (acc : List String × List Workload) (pods : List Pod)
    → IsFiled f.wl_cache
    → Noted acc
    → Returns (λ ws. Nodup (keys ws) × All IsRollable ws) (resolve_pods env ctx f acc pods)
unfolding resolve_pods
resolve_pods_distinct env ctx f acc [] filed n =
    Returns-pure acc.1 (Perm.nodup n.same n.once, n.rollable)
resolve_pods_distinct env ctx f acc (pod ∷ pods) filed n = elim (Bool-cases (is_terminal_pod pod)) [
  | inl gone ↦ rw (gone, resolve_pods) (resolve_pods_distinct env ctx f acc pods filed n)
  | inr live ↦
      rw (live, resolve_pods)
        (Returns-bind FoundWell _ _
          (Returns-in_context _ _ (resolve_owner-FoundWell env ctx f filed pod))
          λ r h.
            resolve_pods_distinct env ctx r.1 (note_workload acc r.0) pods h.1
              (note_workload-Noted acc r.0 h.0 n))
]

-- In any environment, the workloads that `find_for_node` returns have pairwise different keys, and
-- each is a Deployment or a StatefulSet.
pub find_for_node_distinct :
    (env : Env) (ctx : Context) (node_name : String) (w : World) {ws : List Workload} {w' : World}
    → find_for_node env ctx node_name w ≡ (ok ws, w')
    → Nodup (keys ws) × All IsRollable ws
unfolding find_for_node
find_for_node_distinct env ctx node_name w = Returns-ok _ (find_for_node env ctx node_name) w (
    Returns-bind (λ _. Unit {0}) _ _ (Returns-any _)
      λ pods _.
        resolve_pods_distinct env ctx empty_finder ([], []) pods tt
          (record { same = Perm.nil; once = Nodup-nil; rollable = tt }))
