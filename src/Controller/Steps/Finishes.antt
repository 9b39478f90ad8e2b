-- ===== src/Controller/Steps/Finishes.antt =====
-- A round of all steps on a store whose calls do not fail.
use freeradius_k8s_operator.Shared.{
  String, ◌≡◌, refl, List, [], ◌∷◌, Option, none, some, ok, err, Result, Check, ◌>>=◌, Bool-cases,
  Result-cases, inl, inr,
}
use freeradius_k8s_operator.Shared.Int.{pos, int_lt}
use freeradius_k8s_operator.Api.Cluster.{AutoscalingConfig}
use freeradius_k8s_operator.Api.Objects.{KubeTypes, PdbConfig, RadiusCluster}
use freeradius_k8s_operator.Kube.{NamespacedName, KubeError, Kind, deployment, service}
use freeradius_k8s_operator.Renderer.Types.{SecretRef}
use freeradius_k8s_operator.Renderer.Files.{ConfigFiles}
use freeradius_k8s_operator.Controller.Endpoints.{EndpointDef, build_endpoints, stale_suffixes}
use freeradius_k8s_operator.Controller.Endpoints.Cleanup.{
  object_name, delete_if_found, delete_both, cleanup_all, cleanup_stale_resources,
}
use freeradius_k8s_operator.Controller.Objects.{Literals}
use freeradius_k8s_operator.Controller.Objects.Store.{ObjectKind, Object, Store, IsServing}
use freeradius_k8s_operator.Controller.Steps.{
  object_kind, object_client, endpoints_step, reconcile_deployments_and_services, reconcile_objects,
}
use freeradius_k8s_operator.Controller.Steps.Calls.{
  Step, next_step, ◌then◌, delete_found, delete_existing,
}
use freeradius_k8s_operator.Controller.Steps.Deployments.{reconcile_one_deployment}
use freeradius_k8s_operator.Controller.Steps.Services.{reconcile_one_service}
use freeradius_k8s_operator.Controller.Steps.Autoscalers.{
  create_hpa, delete_hpa, hpa_on, reconcile_one_hpa, hpas_of, reconcile_hpas,
}
use freeradius_k8s_operator.Controller.Steps.Budgets.{create_pdb, delete_pdb, pdb_on, reconcile_pdb}
use freeradius_k8s_operator.Controller.Steps.Rbac.{
  reconcile_service_account, reconcile_role, reconcile_role_binding, reconcile_rbac,
}
use freeradius_k8s_operator.Controller.Steps.ConfigMaps.{reconcile_config_map}

-- The step returns no error in any state.
abbrev Finishes : {World : Type 0} → Step World → Type 0
Finishes step = (w : _) → (step w).1 ≡ ok tt

next_step-Finishes :
    {World : Type 0} (r : World × Check KubeError) (next : Step World)
    → r.1 ≡ ok tt
    → Finishes next
    → (next_step r next).1 ≡ ok tt
next_step-Finishes (w, ok u) next h f = f w
next_step-Finishes (w, err e) next h f = cc

then-Finishes :
    {World : Type 0} (first next : Step World)
    → Finishes first
    → Finishes next
    → Finishes (first then next)
then-Finishes first next h f w = next_step-Finishes (first w) next (h w) f

module _ {K : KubeTypes} {World : Type 0} (S : Store K World) (serving : IsServing K S)
    (cluster : RadiusCluster K) where
  create-Finishes :
      (k : ObjectKind) (n : NamespacedName)
      (f : Object K S.Owners k → Result KubeError (Object K S.Owners k))
      → ((old : Object K S.Owners k) → (new : Object K S.Owners k) × (f old ≡ ok new))
      → Finishes (S.create_or_update k n f)
  create-Finishes k n f h w = serving.creates k n f w h

  owned_answer :
      {k : ObjectKind} (old : Object K S.Owners k) (change : S.Owners → Object K S.Owners k)
      → (new : Object K S.Owners k) × ((S.set_controller_reference cluster old.owners >>= λ owners.
            ok (change owners))
          ≡ ok new)
  owned_answer old change =
      let (owners, e) = serving.owns cluster old.owners in (change owners, rw e refl)

  delete-Finishes : (k : ObjectKind) (n : NamespacedName) → Finishes (delete_existing S k n)
  unfolding delete_existing delete_found
  delete-Finishes k n w = elim (Result-cases (S.get k n w)) [
    | inl (o, e) ↦ rw (e, delete_found) (serving.deletes k n o w e)
    | inr (e, f) ↦ rw (f, delete_found) refl
  ]

  rbac-Finishes : Finishes (reconcile_rbac S cluster)
  unfolding reconcile_rbac reconcile_service_account reconcile_role reconcile_role_binding
  rbac-Finishes =
      then-Finishes (reconcile_service_account S cluster then reconcile_role S cluster)
        (reconcile_role_binding S cluster)
        (then-Finishes (reconcile_service_account S cluster) (reconcile_role S cluster)
          (create-Finishes _ _ _ λ old. owned_answer old _)
          (create-Finishes _ _ _ λ old. owned_answer old _))
        (create-Finishes _ _ _ λ old. owned_answer old _)

  config_map-Finishes : (files : ConfigFiles) → Finishes (reconcile_config_map S cluster files)
  unfolding reconcile_config_map
  config_map-Finishes files = create-Finishes _ _ _ λ old. owned_answer old _

  hpa_on-Finishes :
      (ep : EndpointDef) (o : Option AutoscalingConfig) → Finishes (hpa_on S cluster ep o)
  unfolding hpa_on create_hpa delete_hpa
  hpa_on-Finishes ep none w = delete-Finishes _ _ w
  hpa_on-Finishes ep (some c) w = elim (Bool-cases c.enabled) [
    | inl e ↦ rw e (create-Finishes ObjectKind.autoscaler _ _ (λ old. owned_answer old _) w)
    | inr e ↦ rw e (delete-Finishes ObjectKind.autoscaler _ w)
  ]

  hpas_of-Finishes : (eps : List EndpointDef) → Finishes (hpas_of S cluster eps)
  unfolding hpas_of reconcile_one_hpa
  hpas_of-Finishes [] w = refl
  hpas_of-Finishes (ep ∷ eps) w =
      next_step-Finishes (reconcile_one_hpa S cluster ep w) (hpas_of S cluster eps)
        (hpa_on-Finishes ep ep.autoscale w) (hpas_of-Finishes eps)

  unless_deleted :
      (j : Kind) (n : NamespacedName)
      → Finishes (λ w. delete_if_found (object_client S) j n w (S.get (object_kind j) n w))
  unfolding delete_if_found
  unless_deleted j n w = elim (Result-cases (S.get (object_kind j) n w)) [
    | inl (o, e) ↦ rw (e, delete_if_found, serving.deletes (object_kind j) n o w e) refl
    | inr (e, f) ↦ rw (f, delete_if_found) refl
  ]

  both-Finishes : (n : NamespacedName) → Finishes (delete_both (object_client S) n)
  unfolding delete_both
  both-Finishes n w =
      next_step-Finishes _
        (λ v. delete_if_found (object_client S) service n v (S.get (object_kind service) n v))
        (unless_deleted deployment n w) (unless_deleted service n)

  cleanup_all-Finishes :
      (suffixes : List String) → Finishes (cleanup_all (object_client S) cluster suffixes)
  unfolding cleanup_all
  cleanup_all-Finishes [] w = refl
  cleanup_all-Finishes (s ∷ suffixes) w =
      next_step-Finishes (delete_both (object_client S) (object_name cluster s) w)
        (cleanup_all (object_client S) cluster suffixes) (both-Finishes (object_name cluster s) w)
        (cleanup_all-Finishes suffixes)

  module _ (literals : Literals K) (image : String) (refs : List SecretRef) (hash : String) where
    pdb_on-Finishes : (o : Option (PdbConfig K)) → Finishes (pdb_on literals S cluster o)
    unfolding pdb_on create_pdb delete_pdb
    pdb_on-Finishes none w = elim (Bool-cases (int_lt (pos 1) cluster.spec.replicas)) [
      | inl e ↦
          rw e (create-Finishes ObjectKind.disruption_budget _ _ (λ old. owned_answer old _) w)
      | inr e ↦ rw e (delete-Finishes ObjectKind.disruption_budget _ w)
    ]
    pdb_on-Finishes (some pdb) w =
        create-Finishes ObjectKind.disruption_budget _ _ (λ old. owned_answer old _) w

    endpoints-Finishes :
        (eps : List EndpointDef) → Finishes (endpoints_step literals image S cluster refs hash eps)
    unfolding endpoints_step reconcile_one_deployment reconcile_one_service
    endpoints-Finishes [] w = refl
    endpoints-Finishes (ep ∷ eps) w =
        next_step-Finishes _ (endpoints_step literals image S cluster refs hash eps)
          (then-Finishes (reconcile_one_deployment literals image S cluster refs hash ep)
            (reconcile_one_service S cluster ep) (create-Finishes _ _ _ λ old. owned_answer old _)
            (create-Finishes _ _ _ λ old. owned_answer old _) w)
          (endpoints-Finishes eps)

    workloads-Finishes :
        Finishes (reconcile_deployments_and_services literals image S cluster refs hash)
    unfolding reconcile_deployments_and_services cleanup_stale_resources
    workloads-Finishes =
        then-Finishes (endpoints_step literals image S cluster refs hash (build_endpoints cluster))
          (cleanup_stale_resources (object_client S) cluster)
          (endpoints-Finishes (build_endpoints cluster))
          (cleanup_all-Finishes (stale_suffixes cluster))

    pub objects-Finishes :
        (files : ConfigFiles)
        → Finishes (reconcile_objects literals image S cluster files refs hash)
    unfolding reconcile_objects reconcile_hpas reconcile_pdb
    objects-Finishes files =
        let account = reconcile_rbac S cluster in
        let map = reconcile_config_map S cluster files in
        let workloads = reconcile_deployments_and_services literals image S cluster refs hash in
        let scalers = reconcile_hpas S cluster in
        then-Finishes (account then map then workloads then scalers)
          (reconcile_pdb literals S cluster)
          (then-Finishes (account then map then workloads) scalers
            (then-Finishes (account then map) workloads
              (then-Finishes account map rbac-Finishes (config_map-Finishes files))
              workloads-Finishes)
            (hpas_of-Finishes (build_endpoints cluster)))
          (pdb_on-Finishes cluster.spec.pdb)
