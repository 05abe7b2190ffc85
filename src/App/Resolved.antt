-- ===== src/App/Resolved.antt =====
-- `RunResolved` of internal/drainapp/app.go: the drains of several nodes, one by one or in batches.
pub mod Keeps
pub mod Untouched
pub mod Drained
pub mod Patches
pub mod Stops
use k8s_safed.Base.{
  ℕ, zero, suc, String, List, [], ◌∷◌, ◌==◌, length, nat_eq, take, drop, if◌then◌else◌,
}
use k8s_safed.Base.Int.{pos, int_leb, pos_part}
use k8s_safed.Cluster.Calls.{Context, group}
use k8s_safed.Cluster.Env.{Env, Result, ok}
use k8s_safed.Cluster.Exec.{Exec, Done, pure, raise, lift, ◌>>=◌, ◌>>◌, try_catch}
use k8s_safed.Cluster.Poll.{Poller}
use k8s_safed.Config.{in_words}
use k8s_safed.Drain.Checkpoint.Path.{checkpoint_path}
use k8s_safed.Drain.Phases.{run}
use k8s_safed.App.{AppOptions, drainer_options}

module _ (opts : AppOptions) (nodes : List String) where
  -- `concurrency`: 0 and less is all nodes at once.
  unfoldable pub node_batch_size : ℕ
  node_batch_size =
      if int_leb opts.node_concurrency (pos 0) then length nodes else pos_part opts.node_concurrency

-- `user_home_dir` is what os.UserHomeDir returns.
module _ (env : Env) (poller : Poller) (user_home_dir : Result String) (kube_context : String)
    (opts : AppOptions) (nodes : List String) where
  unfoldable pub node_checkpoint : String → Result String
  node_checkpoint node_name =
      if opts.checkpoint_path == ""
      then in_words "resolving checkpoint path"
          (checkpoint_path user_home_dir kube_context node_name)
      else ok opts.checkpoint_path

  -- `drainNode`, once the path is known.
  abbrev pub drain_at : Context → String → String → Exec Done
  drain_at ctx node_name path =
      run env poller (drainer_options opts nodes kube_context node_name path) ctx

  unfoldable pub drain_node : Context → String → Exec Done
  drain_node ctx node_name = lift (node_checkpoint node_name) >>= drain_at ctx node_name

  -- One by one: the first error ends the loop.
  unfoldable pub drain_sequential : Context → List String → Exec Done
  drain_sequential ctx [] = pure tt
  drain_sequential ctx (n ∷ ns) = drain_node ctx n >> drain_sequential ctx ns

  -- The goroutines of a batch, each run to its end in the order of the batch. After an error the
  -- others run under a context that is cancelled, and the first error is the result.
  unfoldable pub drain_batch : Context → List String → Exec Done
  drain_batch ctx [] = pure tt
  drain_batch ctx (n ∷ ns) =
      try_catch (drain_node ctx n) (λ _. drain_batch ctx ns)
        (λ e. try_catch (drain_batch ctx ns) (λ _. raise e) (λ later. raise e))

  -- The loop over the batches, with at most as many rounds as there are nodes.
  unfoldable pub drain_batches : ℕ → Context → ℕ → List String → Exec Done
  drain_batches zero ctx size ns = pure tt
  drain_batches (suc rounds) ctx size [] = pure tt
  drain_batches (suc rounds) ctx size (n ∷ ns) =
      drain_batch (group ctx) (take size (n ∷ ns))
      >> drain_batches rounds ctx size (drop size (n ∷ ns))

  unfoldable pub run_resolved : Context → Exec Done
  run_resolved ctx =
      if nat_eq (node_batch_size opts nodes) 1
      then drain_sequential ctx nodes
      else drain_batches (length nodes) ctx (node_batch_size opts nodes) nodes
