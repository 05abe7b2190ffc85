-- ===== src/Drain/Rollout/Retry.antt =====
-- `retryTransient` of pkg/drain/rollout.go.
pub mod Promises
use k8s_safed.Base.{ℕ, zero, suc, Option, none, some, if◌then◌else◌}
use k8s_safed.Cluster.Calls.{Context}
use k8s_safed.Cluster.Env.{Env, Error}
use k8s_safed.Cluster.Errors.{is_transient}
use k8s_safed.Cluster.Exec.{Exec, pure, raise, ◌>>=◌, try_catch}
use k8s_safed.Cluster.Requests.{wait_or_done}
use k8s_safed.Drain.Options.{Options, poll_interval}

module _ {A : Type 0} (env : Env) (opts : Options) (ctx : Context) (action : Exec A) where
  unfoldable pub or_last : Exec A → Error → Option Error → Exec A
  or_last again last none = again
  or_last again last (some e) = raise last

  -- One attempt, and what is done after the wait.
  unfoldable pub attempt_once : (Error → Exec A) → Exec A
  attempt_once again = try_catch action pure λ e.
      if is_transient env e
      then wait_or_done env ctx (poll_interval opts) >>= or_last (again e) e
      else raise e

  -- The attempts that are left, and `lastErr`.
  unfoldable pub attempts : ℕ → Error → Exec A
  attempts zero last = raise last
  attempts (suc n) last = attempt_once (attempts n)

  unfoldable pub retry_transient : Exec A
  unfolding attempts
  retry_transient = attempts 3 (Error.message "")
