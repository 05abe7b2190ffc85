-- ===== src/Drain/Rollout/Selectors.antt =====
-- The selectors of pkg/drain/rollout.go.
use k8s_safed.Base.{String, Bool, Option, none, some, List, [], ◌∷◌, ◌&&◌, ◌==◌, any, if◌then◌else◌}
use k8s_safed.Base.Maps.{get_text, insert}
use k8s_safed.Cluster.Objects.{LabelSelector, OwnerReference, ReplicaSet, Deployment}
use k8s_safed.Cluster.Calls.{Context}
use k8s_safed.Cluster.Env.{Env, Result, ok, err, message, wrap}
use k8s_safed.Cluster.Exec.{Exec, pure, in_context, ◌>>=◌}
use k8s_safed.Cluster.Requests.{list_replica_sets}

abbrev pub revision_annotation : String
revision_annotation = "deployment.kubernetes.io/revision"

unfoldable pub build_label_selector_string : Env → Option LabelSelector → Result String
build_label_selector_string env none = err (message "nil label selector")
build_label_selector_string env (some sel) = elim (env.as_selector sel) [
  | ok s ↦ ok s.text
  | err e ↦ err (wrap "parsing label selector" e)
]

unfoldable pub is_owned_by_uid : List OwnerReference → String → Bool
is_owned_by_uid refs uid = any (λ ref. ref.uid == uid) refs

-- The loop over the ReplicaSets: the selector of the first that the Deployment owns at its
-- revision, and else the Deployment's.
unfoldable pub selector_at_revision : Deployment → String → List ReplicaSet → Option LabelSelector
selector_at_revision dep revision [] = dep.selector
selector_at_revision dep revision (rs ∷ list) =
    if is_owned_by_uid rs.owner_references dep.uid
      && get_text revision_annotation rs.annotations == revision
    then rs.selector
    else selector_at_revision dep revision list

module _ (env : Env) (ctx : Context) where
  unfoldable pub list_for_selector :
      Deployment → String → Result String → Exec (Option LabelSelector)
  list_for_selector dep revision (err e) = pure dep.selector
  list_for_selector dep revision (ok s) =
      in_context "listing ReplicaSets" (list_replica_sets env ctx dep.namespace s) >>= λ list.
      pure (selector_at_revision dep revision list)

  unfoldable pub new_replica_set_selector : Deployment → Exec (Option LabelSelector)
  unfolding list_for_selector
  new_replica_set_selector dep =
      let revision = get_text revision_annotation dep.annotations in
      if revision == ""
      then pure dep.selector
      else list_for_selector dep revision (build_label_selector_string env dep.selector)

unfoldable pub new_revision_selector : Option LabelSelector → String → Option LabelSelector
new_revision_selector none hash = none
new_revision_selector (some base) hash =
    if hash == ""
    then some base
    else some
        (record base { match_labels = insert "controller-revision-hash" hash base.match_labels })
