-- ===== src/Drain/Node.antt =====
-- pkg/drain/node.go: cordon and uncordon.
use k8s_safed.Base.{Bool, true, false, if◌then◌else◌}
use k8s_safed.Cluster.Objects.{Node}
use k8s_safed.Cluster.Calls.{Context, background, with_timeout}
use k8s_safed.Cluster.Env.{Env}
use k8s_safed.Cluster.Exec.{Exec, Done, pure, ignore, in_context, ◌>>◌}
use k8s_safed.Cluster.Requests.{patch_node}
use k8s_safed.Drain.Options.{Options, seconds}

module _ (env : Env) (opts : Options) where
  -- Whether this call cordoned the node.
  unfoldable pub cordon : Context → Node → Exec Bool
  cordon ctx node =
      if node.unschedulable
      then pure false
      else if opts.dry_run
      then pure false
      else in_context "cordoning node" (patch_node env ctx opts.node_name true) >> pure true

  -- Under a fresh context, and best effort.
  unfoldable pub uncordon : Exec Done
  uncordon = ignore (patch_node env (with_timeout (seconds 30) background) opts.node_name false)
