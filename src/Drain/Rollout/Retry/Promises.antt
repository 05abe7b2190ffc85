-- ===== src/Drain/Rollout/Retry/Promises.antt =====
-- What a retried action promises.
use k8s_safed.Base.{ℕ, zero, suc, Option, none, some}
use k8s_safed.Cluster.Calls.{Context}
use k8s_safed.Cluster.Env.{Env, Error}
use k8s_safed.Cluster.Errors.{is_transient}
use k8s_safed.Cluster.Exec.{World, Exec}
use k8s_safed.Cluster.Exec.Meets.{
  Meets, Meets-pure, Meets-raise, Meets-if, Meets-bind, Meets-try_catch, Meets-Keeps,
}
use k8s_safed.Cluster.Reads.{ReadClosed, wait_or_done-Keeps}
use k8s_safed.Drain.Options.{Options}
use k8s_safed.Drain.Rollout.Retry.{or_last, attempt_once, attempts, retry_transient}

module _ {A : Type 0} {P : World → Type 0} {Q : A → World → Type 0} (reads : ReadClosed P)
    (env : Env) (opts : Options) (ctx : Context) (action : Exec A)
    (once : Meets P Q (λ _. P) action) where
  or_last-Meets :
      (again : Exec A) (last : Error) (o : Option Error)
      → Meets P Q (λ _. P) again
      → Meets P Q (λ _. P) (or_last env opts ctx action again last o)
  unfolding or_last
  or_last-Meets again last none h = h
  or_last-Meets again last (some e) h = Meets-raise _ (λ w p. p)

  attempts-Meets : (n : ℕ) (last : Error) → Meets P Q (λ _. P) (attempts env opts ctx action n last)
  unfolding attempts attempt_once
  attempts-Meets zero last = Meets-raise _ (λ w p. p)
  attempts-Meets (suc n) last =
      Meets-try_catch Q (λ _. P) _ _ _ once (λ a. Meets-pure a (λ w q. q))
        (λ e.
          Meets-if (is_transient env e) _ _
            (λ _.
              Meets-bind (λ _. P) _ _ (Meets-Keeps _ (wait_or_done-Keeps reads env ctx _))
                (λ o. or_last-Meets _ e o (attempts-Meets n e)))
            (λ _. Meets-raise _ (λ w p. p)))

  pub retry_transient-Meets : Meets P Q (λ _. P) (retry_transient env opts ctx action)
  unfolding retry_transient
  retry_transient-Meets = attempts-Meets 3 (Error.message "")
