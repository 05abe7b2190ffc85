-- ===== src/Cluster/Errors.antt =====
-- pkg/k8s/errors.go: the API errors that may go away by themselves.
use k8s_safed.Base.{Bool, ◌||◌}
use k8s_safed.Cluster.Env.{Env, Error}

unfoldable pub is_transient : Env → Error → Bool
is_transient env e =
    env.status.is_internal_error e
    || (env.status.is_server_timeout e
        || (env.status.is_timeout e || env.status.is_too_many_requests e))
