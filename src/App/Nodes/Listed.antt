-- ===== src/App/Nodes/Listed.antt =====
-- The names that `resolve_node_names` returns for a selector.
use Prim.Native.String.{compare}
use text.Mathlib.Text.{is_lt}
use mathlib.Core.List.{Perm}
use mathlib.Core.List.Perm
use k8s_safed.Base.{
  ◌≡◌, refl, ℕ, zero, suc, String, false, Option, none, some, List, [], ◌∷◌, ◌==◌, map, Bool-cases,
  inl, inr,
}
use k8s_safed.Cluster.Objects.{Node}
use k8s_safed.Cluster.Calls.{Context, Call, History, Request}
use k8s_safed.Cluster.Env.{Env, Error, ok, message}
use k8s_safed.Cluster.Errors.{is_transient}
use k8s_safed.Cluster.Exec.{World, Exec}
use k8s_safed.Cluster.Exec.Keeps.{Keeps-ask}
use k8s_safed.Cluster.Exec.Meets.{
  Post-ok, Meets, Meets-pure, Meets-raise, Meets-if, Meets-bind, Meets-try_catch,
}
use k8s_safed.Cluster.Exec.Since.{Grown, same, grown, Since, Got, ask-Meets}
use k8s_safed.Cluster.Exec.Meets.More.{Meets-else}
use k8s_safed.App.Nodes.{
  insert_name, sort_names, names_of, or_ended, list_once, list_attempts, resolve_node_names,
}

insert_name-Perm : (s : String) (ts : List String) → Perm (insert_name s ts) (s ∷ ts)
unfolding insert_name
insert_name-Perm s [] = Perm.refl _
insert_name-Perm s (t ∷ ts) = elim (Bool-cases (is_lt (compare t s))) [
  | inl later ↦
      rw (later, insert_name) (Perm.trans (Perm.cons t (insert_name-Perm s ts)) (Perm.swap _ _ _))
  | inr here ↦ rw (here, insert_name) (Perm.refl _)
]

sort_names-Perm : (ss : List String) → Perm (sort_names ss) ss
unfolding sort_names
sort_names-Perm [] = Perm.refl _
sort_names-Perm (s ∷ ss) =
    Perm.trans (insert_name-Perm s (sort_names ss)) (Perm.cons s (sort_names-Perm ss))

module _ (env : Env) (ctx : Context) (node_selector : String) (before : History) where
  -- Since `before`, the server listed nodes with these names, one at least.
  pub record IsListed (names : List String) (w : World) : Type 0 where
    pub node : Node
    pub nodes : List Node
    pub returned :
        Since
          (λ h. env.nodes_of h ctx node_selector)
          (Call.request ctx (Request.list_nodes node_selector))
          (node ∷ nodes)
          before
          w.calls
    pub same_names : Perm names (map (λ n. n.name) (node ∷ nodes))

  abbrev Before : World → Type 0
  Before w = Grown before w.calls

  names_of-IsListed :
      (nodes : List Node)
      → Meets
          (Got
            (λ h. env.nodes_of h ctx node_selector)
            (Call.request ctx (Request.list_nodes node_selector))
            before
            nodes)
          IsListed
          (λ _ _. Unit)
          (names_of nodes)
  unfolding names_of
  names_of-IsListed [] = Meets-raise _ (λ w h. tt)
  names_of-IsListed (node ∷ nodes) = Meets-pure _ (λ w h. record {
    node = node;
    nodes = nodes;
    returned = h;
    same_names = sort_names-Perm (map (λ n. n.name) (node ∷ nodes));
  })

  or_ended-IsListed :
      (again : Exec (List String)) (e : Error) (o : Option Error)
      → Meets Before IsListed (λ _ _. Unit) again
      → Meets Before IsListed (λ _ _. Unit) (or_ended env ctx node_selector again e o)
  unfolding or_ended
  or_ended-IsListed again e none h = h
  or_ended-IsListed again e (some done) h = Meets-raise _ (λ w g. tt)

  list_attempts-IsListed :
      (n : ℕ) (last : Error)
      → Meets Before IsListed (λ _ _. Unit) (list_attempts env ctx node_selector n last)
  unfolding list_attempts list_once
  list_attempts-IsListed zero last = Meets-raise _ (λ w g. tt)
  list_attempts-IsListed (suc n) last =
      Meets-try_catch _ (λ _. Before) _ _ _ (ask-Meets _ _ before) names_of-IsListed
        (λ e.
          Meets-if (is_transient env e) _ _
            (λ _.
              Meets-bind (λ _. Before) _ _
                (Meets-else _ (Keeps-ask _ _ (λ w g. grown _ g)) (λ u g. tt))
                (λ o. or_ended-IsListed _ e o (list_attempts-IsListed n e)))
            (λ _. Meets-raise _ (λ w g. tt)))

-- With a node selector, when `resolve_node_names` returns names, the server has listed nodes for
-- that selector since it began, one at least, and the names are theirs, each as often as there.
pub resolve_node_names-IsListed :
    (env : Env) (ctx : Context) (node_selector : String) (node_args : List String) (w w' : World)
    {names : List String}
    → node_selector == "" ≡ false
    → resolve_node_names env ctx node_selector node_args w ≡ (ok names, w')
    → IsListed env ctx node_selector w.calls names w'
unfolding resolve_node_names
resolve_node_names-IsListed env ctx node_selector node_args w w' {names} given returned =
    Post-ok (IsListed env ctx node_selector w.calls) (λ _ _. Unit) returned
      (rw given
        ((list_attempts-IsListed env ctx node_selector w.calls 3 (message "")).at w (same refl)))
