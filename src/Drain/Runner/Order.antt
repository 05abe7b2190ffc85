-- ===== src/Drain/Runner/Order.antt =====
-- `sort.SliceStable` by priority, as insertion: an item goes before those that are not lower.
pub mod Stable
use k8s_safed.Base.{Bool, List, [], ◌∷◌, if◌then◌else◌}
use k8s_safed.Base.Int.{int_ltb}
use k8s_safed.Workload.{Workload}

unfoldable pub insert_by_priority : Workload → List Workload → List Workload
insert_by_priority w [] = w ∷ []
insert_by_priority w (v ∷ vs) =
    if int_ltb v.priority w.priority then v ∷ insert_by_priority w vs else w ∷ v ∷ vs

unfoldable pub sort_by_priority : List Workload → List Workload
unfolding insert_by_priority
sort_by_priority [] = []
sort_by_priority (w ∷ ws) = insert_by_priority w (sort_by_priority ws)
