-- ===== src/App/Nodes.antt =====
-- `ResolveNodeNames` of internal/drainapp/app.go. sort.Strings is an insertion.
pub mod Listed
use Prim.Native.String.{compare}
use text.Mathlib.Text.{is_lt}
use mathlib.Core.List.{Perm}
use mathlib.Core.List.Perm
use k8s_safed.Base.{
  ◌≡◌, ◌≢◌, refl, ℕ, zero, suc, String, Bool, true, false, Option, none, some, List, [], ◌∷◌, ◌==◌,
  map, Bool-cases, inl, inr, if◌then◌else◌,
}
use k8s_safed.Cluster.Objects.{Node}
use k8s_safed.Cluster.Calls
use k8s_safed.Cluster.Calls.{Context, Call, History, Request}
use k8s_safed.Cluster.Env.{Env, Error, ok, message, wrap}
use k8s_safed.Cluster.Errors.{is_transient}
use k8s_safed.Cluster.Exec.{World, Exec, pure, raise, ◌>>=◌, try_catch}
use k8s_safed.Cluster.Exec.Keeps.{Keeps, Keeps-ask}
use k8s_safed.Cluster.Exec.Meets.{
  Post-ok, Meets, Meets-pure, Meets-raise, Meets-if, Meets-bind, Meets-try_catch, Meets-Keeps,
}
use k8s_safed.Cluster.Exec.Since.{Grown, same, grown, Since, Got, ask-Meets}
use k8s_safed.Cluster.Requests.{list_nodes, wait_or_done}
use k8s_safed.Drain.Options.{seconds}

unfoldable pub insert_name : String → List String → List String
insert_name s [] = s ∷ []
insert_name s (t ∷ ts) = if is_lt (compare t s) then t ∷ insert_name s ts else s ∷ t ∷ ts

unfoldable pub sort_names : List String → List String
unfolding insert_name
sort_names [] = []
sort_names (s ∷ ss) = insert_name s (sort_names ss)

-- An empty list is an error.
unfoldable pub names_of : List Node → Exec (List String)
names_of [] = raise (message "no nodes matched selector")
names_of (node ∷ nodes) = pure (sort_names (map (λ n. n.name) (node ∷ nodes)))

module _ (env : Env) (ctx : Context) (node_selector : String) where
  unfoldable pub or_ended : Exec (List String) → Error → Option Error → Exec (List String)
  or_ended again e none = again
  or_ended again e (some done) = raise (wrap "listing nodes with selector" e)

  unfoldable pub list_once : (Error → Exec (List String)) → Exec (List String)
  unfolding or_ended
  list_once again = try_catch (list_nodes env ctx node_selector) names_of λ e.
      if is_transient env e
      then wait_or_done env ctx (seconds 2) >>= or_ended (again e) e
      else raise (wrap "listing nodes with selector" e)

  -- The attempts that are left, and `lastErr`.
  unfoldable pub list_attempts : ℕ → Error → Exec (List String)
  list_attempts zero last = raise (wrap "listing nodes with selector" last)
  list_attempts (suc n) last = list_once (list_attempts n)

  unfoldable pub resolve_node_names : List String → Exec (List String)
  unfolding list_attempts
  resolve_node_names node_args =
      if node_selector == "" then pure node_args else list_attempts 3 (message "")
