-- ===== src/App/Resolved/Keeps.antt =====
-- What the loops over the nodes keep.
use k8s_safed.Base.{
  ℕ, zero, suc, String, List, [], ◌∷◌, take, drop, All, All-take, All-drop, nat_eq,
}
use k8s_safed.Cluster.Calls.{Context, group}
use k8s_safed.Cluster.Env.{Env, Result}
use k8s_safed.Cluster.Exec.{World}
use k8s_safed.Cluster.Exec.Keeps.{
  Keeps, Keeps-bind, Keeps-pure, Keeps-raise, Keeps-if, Keeps-lift, Keeps-try_catch,
}
use k8s_safed.Cluster.Poll.{Poller}
use k8s_safed.App.{AppOptions}
use k8s_safed.App.Resolved.{
  node_batch_size, drain_at, drain_node, drain_sequential, drain_batch, drain_batches, run_resolved,
}

module _ (P : World → Type 0) (env : Env) (poller : Poller) (user_home_dir : Result String)
    (kube_context : String) (opts : AppOptions) (nodes : List String) where
  -- Every drain of the node keeps `P`.
  abbrev pub Each : String → Type 0
  Each n =
      (ctx : Context) (path : String)
      → Keeps P (drain_at env poller user_home_dir kube_context opts nodes ctx n path)

  pub drain_node-Keeps :
      (ctx : Context) (n : String)
      → Each n
      → Keeps P (drain_node env poller user_home_dir kube_context opts nodes ctx n)
  unfolding drain_node
  drain_node-Keeps ctx n each = Keeps-bind _ _ (Keeps-lift _) (each ctx)

  drain_sequential-Keeps :
      (ctx : Context) (ns : List String)
      → All Each ns
      → Keeps P (drain_sequential env poller user_home_dir kube_context opts nodes ctx ns)
  unfolding drain_sequential
  drain_sequential-Keeps ctx [] each = Keeps-pure tt
  drain_sequential-Keeps ctx (n ∷ ns) each =
      Keeps-bind _ _ (drain_node-Keeps ctx n each.0) (λ _. drain_sequential-Keeps ctx ns each.1)

  drain_batch-Keeps :
      (ctx : Context) (ns : List String)
      → All Each ns
      → Keeps P (drain_batch env poller user_home_dir kube_context opts nodes ctx ns)
  unfolding drain_batch
  drain_batch-Keeps ctx [] each = Keeps-pure tt
  drain_batch-Keeps ctx (n ∷ ns) each =
      let rest = drain_batch-Keeps ctx ns each.1 in
      Keeps-try_catch _ _ _ (drain_node-Keeps ctx n each.0) (λ _. rest)
        (λ e. Keeps-try_catch _ _ _ rest (λ _. Keeps-raise e) (λ later. Keeps-raise e))

  drain_batches-Keeps :
      (rounds size : ℕ) (ctx : Context) (ns : List String)
      → All Each ns
      → Keeps P (drain_batches env poller user_home_dir kube_context opts nodes rounds ctx size ns)
  unfolding drain_batches
  drain_batches-Keeps zero size ctx ns each = Keeps-pure tt
  drain_batches-Keeps (suc rounds) size ctx [] each = Keeps-pure tt
  drain_batches-Keeps (suc rounds) size ctx (n ∷ ns) each =
      Keeps-bind _ _
        (drain_batch-Keeps (group ctx) (take size (n ∷ ns)) (All-take Each size _ each))
        (λ _. drain_batches-Keeps rounds size ctx (drop size (n ∷ ns)) (All-drop Each size _ each))

  -- What every drain keeps, the loop over the nodes keeps.
  pub run_resolved-Keeps :
      (ctx : Context)
      → All Each nodes
      → Keeps P (run_resolved env poller user_home_dir kube_context opts nodes ctx)
  unfolding run_resolved
  run_resolved-Keeps ctx each =
      Keeps-if (nat_eq (node_batch_size opts nodes) 1) _ _
        (λ _. drain_sequential-Keeps ctx nodes each) (λ _. drain_batches-Keeps _ _ ctx nodes each)
