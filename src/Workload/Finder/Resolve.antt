-- ===== src/Workload/Finder/Resolve.antt =====
-- What the resolution of an owner returns: a workload that a rolling restart can treat, under the
-- key that the caches file it by.
use k8s_safed.Base.{
  ◌≡◌, refl, String, Bool, Option, none, some, [], ◌∷◌, ◌⊎◌, inl, inr, arith, All, Bool-cases,
  Option-cases, ◌==◌, eq_iff, if◌then◌else◌,
}
use k8s_safed.Base.Maps.{Map, lookup, insert}
use k8s_safed.Base.Text.{slash3, slash2}
use k8s_safed.Cluster.Objects.{OwnerReference, Pod, ReplicaSet}
use k8s_safed.Cluster.Calls.{Context}
use k8s_safed.Cluster.Env.{Env, Error}
use k8s_safed.Cluster.Exec.{pure, raise}
use k8s_safed.Cluster.Exec.Meets.{Returns, Returns-pure, Returns-raise, Returns-try_catch, Meets-if}
use k8s_safed.Workload.{deployment, stateful_set, Workload, workload_key, controller_owner_ref}
use k8s_safed.Workload.Finder.{
  Finder, Found, deployment_workload, stateful_set_workload, resolve_deployment,
  resolve_stateful_set, through_owner, through_replica_set, resolve_replica_set, resolve_reference,
  resolve_owner,
}

abbrev pub IsRollable : Workload → Type 0
IsRollable w = (w.kind ≡ deployment) ⊎ (w.kind ≡ stateful_set)

-- Every cached workload stands under its own key.
abbrev pub IsFiled : Map Workload → Type 0
IsFiled m = All (λ (e : String × Workload). (e.0 ≡ workload_key e.1) × IsRollable e.1) m

insert-IsFiled :
    (k : String) (w : Workload) (m : Map Workload)
    → k ≡ workload_key w
    → IsRollable w
    → IsFiled m
    → IsFiled (insert k w m)
unfolding insert
insert-IsFiled k w [] e r h = ((e, r), tt)
insert-IsFiled k w ((j, v) ∷ m) e r h = elim (Bool-cases (j == k)) [
  | inl same ↦ rw same ((e, r), h.1)
  | inr other ↦ rw other (h.0, insert-IsFiled k w m e r h.1)
]

lookup-IsFiled :
    (k : String) (m : Map Workload) (w : Workload)
    → IsFiled m
    → lookup k m ≡ some w
    → (k ≡ workload_key w) × IsRollable w
unfolding lookup
lookup-IsFiled k [] w h e = ground arith
lookup-IsFiled k ((j, v) ∷ m) w h e = ground (arith, lookup-IsFiled k m w h.1, eq_iff j k)

abbrev pub IsFound : Option Workload → Type 0
IsFound none = Unit
IsFound (some w) = IsRollable w

abbrev pub FoundWell : Found → Type 0
FoundWell r = IsFound r.0 × IsFiled r.1.wl_cache

module _ (env : Env) (ctx : Context) (f : Finder) (filed : IsFiled f.wl_cache) where
  nothing-FoundWell : Returns FoundWell (pure (none, f))
  nothing-FoundWell = Returns-pure _ (tt, filed)

  failure-FoundWell :
      (b : Bool) (e : Error) → Returns FoundWell (if b then pure (none, f) else raise e)
  failure-FoundWell b e =
      Meets-if b (pure (none, f)) (raise e) (λ _. nothing-FoundWell) (λ _. Returns-raise e)

  -- A fetched workload is filed, unless its UID is not the one that the reference names.
  filed-FoundWell :
      (b : Bool) (k : String) (w : Workload)
      → k ≡ workload_key w
      → IsRollable w
      → Returns FoundWell (
          if b
          then pure (none, f)
          else pure (some w, record f { wl_cache = insert k w f.wl_cache }))
  filed-FoundWell b k w e r =
      Meets-if b _ _ (λ _. nothing-FoundWell)
        (λ _. Returns-pure _ (r, insert-IsFiled k w f.wl_cache e r filed))

  cached-FoundWell :
      (k : String) (w : Workload)
      → lookup k f.wl_cache ≡ some w
      → Returns FoundWell (pure (some w, f))
  cached-FoundWell k w e = Returns-pure _ ((lookup-IsFiled k f.wl_cache w filed e).1, filed)

  resolve_deployment-FoundWell :
      (namespace : String) (ref : OwnerReference)
      → Returns FoundWell (resolve_deployment env ctx f namespace ref)
  unfolding resolve_deployment
  resolve_deployment-FoundWell namespace ref =
      elim (Option-cases (lookup (slash3 "Deployment" namespace ref.name) f.wl_cache)) [
        | inr (w, e) ↦ rw (e, resolve_deployment) (cached-FoundWell _ w e)
        | inl e ↦
            rw (e, resolve_deployment)
              (Returns-try_catch _ _ _
                (λ dep.
                  unfold deployment_workload workload_key in filed-FoundWell _ _ _ refl (inl refl))
                (λ e. failure-FoundWell _ _))
      ]

  resolve_stateful_set-FoundWell :
      (namespace : String) (ref : OwnerReference)
      → Returns FoundWell (resolve_stateful_set env ctx f namespace ref)
  unfolding resolve_stateful_set
  resolve_stateful_set-FoundWell namespace ref =
      elim (Option-cases (lookup (slash3 "StatefulSet" namespace ref.name) f.wl_cache)) [
        | inr (w, e) ↦ rw (e, resolve_stateful_set) (cached-FoundWell _ w e)
        | inl e ↦
            rw (e, resolve_stateful_set)
              (Returns-try_catch _ _ _
                (λ sts.
                  unfold stateful_set_workload workload_key in
                  filed-FoundWell _ _ _ refl (inr refl))
                (λ e. failure-FoundWell _ _))
      ]

  through_owner-FoundWell :
      (namespace : String) (owner : Option OwnerReference)
      → Returns FoundWell (through_owner env ctx f namespace owner)
  unfolding through_owner
  through_owner-FoundWell namespace none = nothing-FoundWell
  through_owner-FoundWell namespace (some ref) =
      Meets-if _ _ _ (λ _. resolve_deployment-FoundWell namespace ref) (λ _. nothing-FoundWell)

  through_replica_set-FoundWell :
      (namespace : String) (ref : OwnerReference) (rs : ReplicaSet)
      → Returns FoundWell (through_replica_set env ctx f namespace ref rs)
  unfolding through_replica_set
  through_replica_set-FoundWell namespace ref rs =
      search (Meets-if, nothing-FoundWell, through_owner-FoundWell)

module _ (env : Env) (ctx : Context) (f : Finder) (filed : IsFiled f.wl_cache) where
  resolve_replica_set-FoundWell :
      (namespace : String) (ref : OwnerReference)
      → Returns FoundWell (resolve_replica_set env ctx f namespace ref)
  unfolding resolve_replica_set
  resolve_replica_set-FoundWell namespace ref =
      elim (Option-cases (lookup (slash2 namespace ref.name) f.rs_cache)) [
        | inr (rs, e) ↦
            rw (e, resolve_replica_set)
              (through_replica_set-FoundWell env ctx f filed namespace ref rs)
        | inl e ↦
            rw (e, resolve_replica_set)
              (Returns-try_catch _ _ _
                (λ rs.
                  through_replica_set-FoundWell env ctx
                    (record f { rs_cache = insert (slash2 namespace ref.name) rs f.rs_cache }) filed
                    namespace ref rs)
                (λ e. failure-FoundWell env ctx f filed _ _))
      ]

  resolve_reference-FoundWell :
      (namespace : String) (owner : Option OwnerReference)
      → Returns FoundWell (resolve_reference env ctx f namespace owner)
  unfolding resolve_reference
  resolve_reference-FoundWell namespace none = nothing-FoundWell env ctx f filed
  resolve_reference-FoundWell namespace (some ref) = search (
    Meets-if,
    resolve_replica_set-FoundWell,
    resolve_stateful_set-FoundWell env ctx f filed,
    nothing-FoundWell env ctx f filed,
  )

  pub resolve_owner-FoundWell : (pod : Pod) → Returns FoundWell (resolve_owner env ctx f pod)
  unfolding resolve_owner
  resolve_owner-FoundWell pod =
      resolve_reference-FoundWell pod.namespace (controller_owner_ref pod.owner_references)
