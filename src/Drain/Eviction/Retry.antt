-- ===== src/Drain/Eviction/Retry.antt =====
-- `evictWithPDBRetry` and `buildEviction` of pkg/drain/eviction.go. The context of the loop has a
-- timeout, so only so many of its timers fire before the context is done: the loop recurs on that
-- number, and at zero its `select` takes the branch of the context.
pub mod Backoff
use k8s_safed.Base.{ℕ, zero, suc, Bool, Option, none, some, ◌||◌, if◌then◌else◌}
use k8s_safed.Base.Int.{ℤ, pos, int_ltb, int_leb, double_int64}
use k8s_safed.Cluster.Objects.{Duration, Pod}
use k8s_safed.Cluster.Calls.{Context, with_timeout}
use k8s_safed.Cluster.Env.{Env, Error, wrap}
use k8s_safed.Cluster.Exec.{Exec, Done, pure, raise, gets, ◌>>=◌, try_catch}
use k8s_safed.Cluster.Requests.{evict_pod, wait_or_done}
use k8s_safed.Drain.Options.{Options, seconds, eviction_timeout, pdb_retry_interval}

-- The grace period of the eviction's delete options, if they are set.
unfoldable pub build_eviction : ℤ → Option ℤ
build_eviction grace_period = if int_leb (pos 0) grace_period then some grace_period else none

abbrev pub max_interval : Duration
max_interval = seconds 60

-- `interval *= 2`, capped.
unfoldable pub next_interval : Duration → Duration
next_interval interval =
    let doubled = double_int64 interval in
    if int_ltb max_interval doubled then max_interval else doubled

module _ (env : Env) (opts : Options) where
  unfoldable pub is_budget_block : Error → Bool
  is_budget_block e = env.status.is_too_many_requests e || env.status.is_service_unavailable e

  unfoldable pub request_eviction : Context → Pod → Exec Done
  unfolding build_eviction
  request_eviction ctx pod =
      evict_pod env ctx pod.namespace pod.name (build_eviction opts.grace_period)

  -- An eviction error that no budget explains: a pod that is gone is a success.
  unfoldable pub settle : Error → Exec Done
  settle e = if env.status.is_not_found e then pure tt else raise (wrap "evicting pod" e)

  unfoldable pub timed_out : Error → Exec Done
  timed_out e = raise (wrap "evicting pod: timed out waiting for PDB" e)

  unfoldable pub or_timed_out : Exec Done → Option Error → Exec Done
  or_timed_out again none = again
  or_timed_out again (some e) = timed_out e

  -- One round of the loop, and what is done after it when the wait is over.
  unfoldable pub evict_round : Exec Done → Context → Pod → Duration → Exec Done
  evict_round again ctx pod interval = try_catch (request_eviction ctx pod) pure λ e.
      if is_budget_block e then wait_or_done env ctx interval >>= or_timed_out again else settle e

  unfoldable pub evict_loop : ℕ → Context → Pod → Duration → Exec Done
  evict_loop zero ctx pod interval = evict_round (timed_out (env.done_error ctx)) ctx pod interval
  evict_loop (suc rounds) ctx pod interval =
      evict_round (evict_loop rounds ctx pod (next_interval interval)) ctx pod interval

  unfoldable pub evict_with_pdb_retry : Context → Pod → Exec Done
  evict_with_pdb_retry ctx pod = do
    let evict_ctx = with_timeout (eviction_timeout opts) ctx
    rounds ← gets (λ w. env.rounds_left w.calls evict_ctx)
    evict_loop rounds evict_ctx pod (pdb_retry_interval opts)
