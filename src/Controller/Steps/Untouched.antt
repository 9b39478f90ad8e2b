-- ===== src/Controller/Steps/Untouched.antt =====
-- Which kinds of objects each step of the reconciler leaves alone.
use freeradius_k8s_operator.Shared.{
  String, ◌≡◌, ◌≢◌, refl, ◌∙◌, List, [], ◌∷◌, Option, none, some, ok, err, Result, Check, inl, inr,
  Bool-cases,
}
use freeradius_k8s_operator.Shared.Int.{pos, int_lt}
use freeradius_k8s_operator.Api.Objects.{KubeTypes, RadiusCluster, PdbConfig}
use freeradius_k8s_operator.Api.Cluster.{AutoscalingConfig}
use freeradius_k8s_operator.Kube.{NamespacedName, KubeError, Kind}
use freeradius_k8s_operator.Renderer.Types.{SecretRef}
use freeradius_k8s_operator.Renderer.Files.{ConfigFiles}
use freeradius_k8s_operator.Controller.Endpoints.{EndpointDef, stale_suffixes}
use freeradius_k8s_operator.Controller.Endpoints.Cleanup.{
  object_name, and_then, delete_if_found, delete_both, cleanup_all, cleanup_stale_resources,
}
use freeradius_k8s_operator.Controller.Objects.{Literals}
use freeradius_k8s_operator.Controller.Objects.Store.{ObjectKind, Object, Store, IsLawful}
use freeradius_k8s_operator.Controller.Steps.{
  object_kind, object_client, endpoints_step, reconcile_deployments_and_services,
}
use freeradius_k8s_operator.Controller.Steps.Calls.{◌then◌}
use freeradius_k8s_operator.Controller.Steps.Laws.{
  Spares, then-Spares, create-Spares, delete-Spares,
}
use freeradius_k8s_operator.Controller.Steps.Deployments.{reconcile_one_deployment}
use freeradius_k8s_operator.Controller.Steps.Services.{reconcile_one_service}
use freeradius_k8s_operator.Controller.Steps.Autoscalers.{
  create_hpa, delete_hpa, hpa_on, reconcile_one_hpa, hpas_of, reconcile_hpas,
}
use freeradius_k8s_operator.Controller.Steps.Budgets.{create_pdb, delete_pdb, pdb_on, reconcile_pdb}
use freeradius_k8s_operator.Controller.Steps.Rbac.{
  reconcile_service_account, reconcile_role, reconcile_role_binding, reconcile_rbac,
}
use freeradius_k8s_operator.Controller.Steps.ConfigMaps.{reconcile_config_map}

module _ {K : KubeTypes} {World : Type 0} (S : Store K World) (L : IsLawful K S) (j : ObjectKind)
    (m : NamespacedName) (cluster : RadiusCluster K) where
  pub rbac-Spares :
      j ≢ ObjectKind.service_account
      → j ≢ ObjectKind.role
      → j ≢ ObjectKind.role_binding
      → Spares S j m (reconcile_rbac S cluster)
  unfolding reconcile_rbac reconcile_service_account reconcile_role reconcile_role_binding
  rbac-Spares a b c =
      then-Spares S j m (reconcile_service_account S cluster then reconcile_role S cluster)
        (reconcile_role_binding S cluster)
        (then-Spares S j m (reconcile_service_account S cluster) (reconcile_role S cluster)
          (create-Spares S L j _ m _ _ (inl a)) (create-Spares S L j _ m _ _ (inl b)))
        (create-Spares S L j _ m _ _ (inl c))

  pub config_map-Spares :
      (files : ConfigFiles)
      → j ≢ ObjectKind.config_map
      → Spares S j m (reconcile_config_map S cluster files)
  unfolding reconcile_config_map
  config_map-Spares files a = create-Spares S L j _ m _ _ (inl a)

  module _ (a : j ≢ ObjectKind.autoscaler) where
    hpa_on-Spares :
        (ep : EndpointDef) (o : Option AutoscalingConfig) → Spares S j m (hpa_on S cluster ep o)
    unfolding hpa_on create_hpa delete_hpa
    hpa_on-Spares ep none w = delete-Spares S L j _ m _ (inl a) w
    hpa_on-Spares ep (some c) w = elim (Bool-cases c.enabled) [
      | inl e ↦ rw e (create-Spares S L j _ m _ _ (inl a) w)
      | inr e ↦ rw e (delete-Spares S L j _ m _ (inl a) w)
    ]

    hpas_of-Spares : (eps : List EndpointDef) → Spares S j m (hpas_of S cluster eps)
    unfolding hpas_of reconcile_one_hpa
    hpas_of-Spares [] w = refl
    hpas_of-Spares (ep ∷ eps) w =
        then-Spares S j m (reconcile_one_hpa S cluster ep) (hpas_of S cluster eps)
          (hpa_on-Spares ep ep.autoscale) (hpas_of-Spares eps) w

    pub hpas-Spares : Spares S j m (reconcile_hpas S cluster)
    unfolding reconcile_hpas
    hpas-Spares = hpas_of-Spares _

  module _ (literals : Literals K) (a : j ≢ ObjectKind.disruption_budget) where
    pdb_on-Spares : (o : Option (PdbConfig K)) → Spares S j m (pdb_on literals S cluster o)
    unfolding pdb_on create_pdb delete_pdb
    pdb_on-Spares none w = elim (Bool-cases (int_lt (pos 1) cluster.spec.replicas)) [
      | inl e ↦ rw e (create-Spares S L j _ m _ _ (inl a) w)
      | inr e ↦ rw e (delete-Spares S L j _ m _ (inl a) w)
    ]
    pdb_on-Spares (some pdb) w = create-Spares S L j _ m _ _ (inl a) w

    pub pdb-Spares : Spares S j m (reconcile_pdb literals S cluster)
    unfolding reconcile_pdb
    pdb-Spares = pdb_on-Spares cluster.spec.pdb

  module _ (a : j ≢ ObjectKind.deployment) (b : j ≢ ObjectKind.service) where
    endpoints-Spares :
        (literals : Literals K) (image : String) (refs : List SecretRef) (hash : String)
        (eps : List EndpointDef)
        → Spares S j m (endpoints_step literals image S cluster refs hash eps)
    unfolding endpoints_step reconcile_one_deployment reconcile_one_service
    endpoints-Spares literals image refs hash [] w = refl
    endpoints-Spares literals image refs hash (ep ∷ eps) w =
        then-Spares S j m
          (reconcile_one_deployment literals image S cluster refs hash ep
            then reconcile_one_service S cluster ep)
          (endpoints_step literals image S cluster refs hash eps)
          (then-Spares S j m (reconcile_one_deployment literals image S cluster refs hash ep)
            (reconcile_one_service S cluster ep) (create-Spares S L j _ m _ _ (inl a))
            (create-Spares S L j _ m _ _ (inl b)))
          (endpoints-Spares literals image refs hash eps) w

    not_kind : (k : Kind) → j ≢ object_kind k
    not_kind Kind.deployment = a
    not_kind Kind.service = b

    delete_if_found-Spares :
        (k : Kind) (n : NamespacedName) (w : World)
        (found : Result KubeError (Object K S.Owners (object_kind k)))
        → S.get j m (delete_if_found (object_client S) k n w found).0 ≡ S.get j m w
    unfolding delete_if_found
    delete_if_found-Spares k n w (err e) = refl
    delete_if_found-Spares k n w (ok o) =
        L.get-delete_other j (object_kind k) m n w (inl (not_kind k))

    and_then-Spares :
        (w : World) (r : World × Check KubeError) (next : World → World × Check KubeError)
        → S.get j m r.0 ≡ S.get j m w
        → ((v : World) → S.get j m (next v).0 ≡ S.get j m v)
        → S.get j m (and_then (object_client S) r next).0 ≡ S.get j m w
    and_then-Spares w (v, ok u) next h k = k v ∙ h
    and_then-Spares w (v, err e) next h k = h

    delete_both-Spares : (n : NamespacedName) → Spares S j m (delete_both (object_client S) n)
    unfolding delete_both
    delete_both-Spares n w =
        let client = object_client S in
        and_then-Spares w
          (delete_if_found client Kind.deployment n w (client.get Kind.deployment n w))
          (λ v. delete_if_found client Kind.service n v (client.get Kind.service n v))
          (delete_if_found-Spares Kind.deployment n w (client.get Kind.deployment n w))
          (λ v. delete_if_found-Spares Kind.service n v (client.get Kind.service n v))

    cleanup_all-Spares :
        (suffixes : List String) → Spares S j m (cleanup_all (object_client S) cluster suffixes)
    unfolding cleanup_all
    cleanup_all-Spares [] w = refl
    cleanup_all-Spares (s ∷ ss) w =
        and_then-Spares w (delete_both (object_client S) (object_name cluster s) w)
          (cleanup_all (object_client S) cluster ss) (delete_both-Spares (object_name cluster s) w)
          (cleanup_all-Spares ss)

    pub deployments-Spares :
        (literals : Literals K) (image : String) (refs : List SecretRef) (hash : String)
        → Spares S j m (reconcile_deployments_and_services literals image S cluster refs hash)
    unfolding reconcile_deployments_and_services cleanup_stale_resources
    deployments-Spares literals image refs hash =
        then-Spares S j m (endpoints_step literals image S cluster refs hash _)
          (cleanup_all (object_client S) cluster (stale_suffixes cluster))
          (endpoints-Spares literals image refs hash _)
          (cleanup_all-Spares (stale_suffixes cluster))
