-- ===== src/App/Resolved/Stops.antt =====
-- Where the drains of several nodes, one by one, stop.
use k8s_safed.Base.{◌≡◌, refl, ap, subst, String, List, [], ◌∷◌, ◌++◌, All}
use k8s_safed.Cluster.Calls.{Context}
use k8s_safed.Cluster.Env.{Env, Error, Result, err}
use k8s_safed.Cluster.Exec.{World, Exec, Done}
use k8s_safed.Cluster.Exec.Meets.{Post, Meets, Meets-pure, Meets-bind}
use k8s_safed.Cluster.Exec.Meets.More.{Meets-mono, Meets-itself, Ran, FailedRun}
use k8s_safed.Cluster.Poll.{Poller}
use k8s_safed.App.{AppOptions}
use k8s_safed.App.Resolved.{drain_node, drain_sequential, node_batch_size, run_resolved}

module _ (env : Env) (poller : Poller) (user_home_dir : Result String) (kube_context : String)
    (opts : AppOptions) (nodes : List String) (ctx : Context) where
  abbrev drain : String → Exec Done
  drain n = drain_node env poller user_home_dir kube_context opts nodes ctx n

  -- The drains of the first nodes succeeded, the next failed with the error, and nothing was done
  -- after it.
  pub record StoppedAt (ns : List String) (e : Error) (end : World) : Type 0 where
    pub before : List String
    pub node : String
    pub after : List String
    pub in_order : ns ≡ before ++ (node ∷ after)
    pub succeeded : All (λ n. (w : World) × Ran (drain n) tt w) before
    pub failed : FailedRun (drain node) e end

  drain_sequential-StoppedAt :
      (ns : List String)
      → Meets {A = Done}
          (λ _. Unit {0})
          (λ _ _. Unit {0})
          (StoppedAt ns)
          (drain_sequential env poller user_home_dir kube_context opts nodes ctx ns)
  unfolding drain_sequential
  drain_sequential-StoppedAt [] = Meets-pure tt (λ w h. tt)
  drain_sequential-StoppedAt (n ∷ ns) =
      Meets-bind (λ _ w. Ran (drain n) tt w) _ _
        (Meets-mono (λ done w h. h)
          (λ e w h. record {
            before = [];
            node = n;
            after = ns;
            in_order = refl;
            succeeded = tt;
            failed = h;
          })
          (Meets-itself (drain n)))
        (λ done. record {
          at = λ w ran.
              (Meets-mono (λ _ u h. h)
                  (λ e u h. record {
                    before = n ∷ h.before;
                    node = h.node;
                    after = h.after;
                    in_order = ap (λ l. n ∷ l) h.in_order;
                    succeeded = ((w, ran), h.succeeded);
                    failed = h.failed;
                  })
                  (drain_sequential-StoppedAt ns)).at
                w tt;
        })

-- When the nodes are drained one by one and `run_resolved` fails, the drains of the nodes before
-- some node succeeded, the drain of that node failed with the same error, and nothing was done
-- after that drain.
pub run_resolved-StoppedAt :
    (env : Env) (poller : Poller) (user_home_dir : Result String) (kube_context : String)
    (opts : AppOptions) (nodes : List String) (ctx : Context) (e : Error) (w w' : World)
    → node_batch_size opts nodes ≡ 1
    → run_resolved env poller user_home_dir kube_context opts nodes ctx w ≡ (err e, w')
    → StoppedAt env poller user_home_dir kube_context opts nodes ctx nodes e w'
unfolding run_resolved
run_resolved-StoppedAt env poller user_home_dir kube_context opts nodes ctx e w w' one failed =
    subst
      (Post {A = Done} (λ _ _. Unit {0})
        (StoppedAt env poller user_home_dir kube_context opts nodes ctx nodes))
      failed
      (rw one (
        (drain_sequential-StoppedAt env poller user_home_dir kube_context opts nodes ctx nodes).at w
          tt))
