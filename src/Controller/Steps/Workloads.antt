-- ===== src/Controller/Steps/Workloads.antt =====
-- What a round of all steps leaves of the deployments and services.
use freeradius_k8s_operator.Shared.{
  String, ◌≡◌, ◌≢◌, refl, false, List, [], ◌∷◌, ◌++◌, ok, inl, inr, All, All-imp, AreDistinct,
  is_in, ◌==◌, Bool-cases,
}
use freeradius_k8s_operator.Api.Objects.{KubeTypes, RadiusCluster}
use freeradius_k8s_operator.Kube.{Kind}
use freeradius_k8s_operator.Renderer.Types.{SecretRef}
use freeradius_k8s_operator.Renderer.Files.{ConfigFiles}
use freeradius_k8s_operator.Controller.Endpoints.{EndpointDef, build_endpoints, stale_suffixes}
use freeradius_k8s_operator.Controller.Endpoints.Names.{suffixes_of, build_endpoints-AreDistinct}
use freeradius_k8s_operator.Controller.Endpoints.Cleanup.{object_name, cleanup_stale_resources}
use freeradius_k8s_operator.Controller.Objects.{Literals}
use freeradius_k8s_operator.Controller.Objects.Store.{ObjectKind, Store, IsLawful}
use freeradius_k8s_operator.Controller.Steps.{
  object_kind, object_client, endpoints_step, reconcile_deployments_and_services, reconcile_objects,
}
use freeradius_k8s_operator.Controller.Steps.Laws.{
  Answer, IsMissing, Leaves, then-Leaves, then-Leaves_first,
}
use freeradius_k8s_operator.Controller.Steps.Order.{from_workloads}
use freeradius_k8s_operator.Controller.Steps.Cleaned.{cleanup-Spares, cleanup-Leaves}

pub All-both :
    {A : Type 0} (P Q : A → Type 0) (xs : List A) → All P xs → All Q xs → All (λ x. P x × Q x) xs
All-both P Q [] h k = tt
All-both P Q (x ∷ xs) (p, h) (q, k) = ((p, q), All-both P Q xs h k)

AreDistinct-first : (xs ys : List String) → AreDistinct (xs ++ ys) → AreDistinct xs
AreDistinct-first [] ys h = tt
AreDistinct-first (x ∷ xs) ys (a, h) = (not_in-first x xs ys a, AreDistinct-first xs ys h)
  where
    not_in-first :
        (s : String) (us vs : List String) → is_in s (us ++ vs) ≡ false → is_in s us ≡ false
    not_in-first s [] vs k = refl
    not_in-first s (u ∷ us) vs k = elim (Bool-cases (s == u)) [
      | inl e ↦ cc (rw e at k)
      | inr e ↦ rw e (not_in-first s us vs (rw e at k))
    ]

module _ {K : KubeTypes} (literals : Literals K) (image : String) {World : Type 0}
    (S : Store K World) (cluster : RadiusCluster K) (files : ConfigFiles) (refs : List SecretRef)
    (hash : String) where
  module _ (L : IsLawful K S) where
    -- What the loop over the endpoints leaves of an endpoint's object, the clean-up does not touch.
    workloads-Leave :
        (j : Kind) (Q : EndpointDef → Answer S (object_kind j) → Type 0)
        → All
            (λ ep.
              Leaves S
                (object_kind j)
                (object_name cluster ep.suffix)
                (Q ep)
                (endpoints_step literals image S cluster refs hash (build_endpoints cluster)))
            (build_endpoints cluster)
        → All
            (λ ep.
              Leaves S
                (object_kind j)
                (object_name cluster ep.suffix)
                (Q ep)
                (reconcile_deployments_and_services literals image S cluster refs hash))
            (build_endpoints cluster)
    unfolding reconcile_deployments_and_services
    workloads-Leave j Q h =
        All-imp
          (λ ep (l, s).
            then-Leaves_first S (object_kind j) (object_name cluster ep.suffix) (Q ep)
              (endpoints_step literals image S cluster refs hash (build_endpoints cluster))
              (cleanup_stale_resources (object_client S) cluster) l s)
          (build_endpoints cluster)
          (All-both _ _ (build_endpoints cluster) h (cleanup-Spares cluster S L j))

    stale-Leave :
        (j : Kind)
        → All
            (λ s.
              Leaves S
                (object_kind j)
                (object_name cluster s)
                (IsMissing S {k = object_kind j})
                (reconcile_deployments_and_services literals image S cluster refs hash))
            (stale_suffixes cluster)
    unfolding reconcile_deployments_and_services
    stale-Leave j =
        All-imp
          (λ s l.
            then-Leaves S (object_kind j) (object_name cluster s) (IsMissing S {k = object_kind j})
              (endpoints_step literals image S cluster refs hash (build_endpoints cluster))
              (cleanup_stale_resources (object_client S) cluster) l)
          (stale_suffixes cluster) (cleanup-Leaves cluster S L j)

    -- What the loop and the clean-up leave of each endpoint's object is there at the end.
    pub endpoint_objects :
        (j : Kind) (Q : EndpointDef → Answer S (object_kind j) → Type 0)
        → object_kind j ≢ ObjectKind.autoscaler
        → object_kind j ≢ ObjectKind.disruption_budget
        → All
            (λ ep.
              Leaves S
                (object_kind j)
                (object_name cluster ep.suffix)
                (Q ep)
                (endpoints_step literals image S cluster refs hash (build_endpoints cluster)))
            (build_endpoints cluster)
        → (w : World) → (reconcile_objects literals image S cluster files refs hash w).1 ≡ ok tt
        → All
            (λ ep. Q ep (
              S.get
                (object_kind j)
                (object_name cluster ep.suffix)
                (reconcile_objects literals image S cluster files refs hash w).0))
            (build_endpoints cluster)
    unfolding reconcile_objects
    endpoint_objects j Q a b h w done =
        All-imp
          (λ ep l.
            from_workloads literals image S cluster files refs hash L (object_kind j)
              (object_name cluster ep.suffix) (Q ep) l a b w done)
          (build_endpoints cluster) (workloads-Leave j Q h)

    pub stale_objects :
        (j : Kind)
        → object_kind j ≢ ObjectKind.autoscaler
        → object_kind j ≢ ObjectKind.disruption_budget
        → (w : World) → (reconcile_objects literals image S cluster files refs hash w).1 ≡ ok tt
        → All
            (λ s. IsMissing S {k = object_kind j} (
              S.get
                (object_kind j)
                (object_name cluster s)
                (reconcile_objects literals image S cluster files refs hash w).0))
            (stale_suffixes cluster)
    unfolding reconcile_objects
    stale_objects j a b w done =
        All-imp
          (λ s l.
            from_workloads literals image S cluster files refs hash L (object_kind j)
              (object_name cluster s) (IsMissing S {k = object_kind j}) l a b w done)
          (stale_suffixes cluster) (stale-Leave j)

    pub distinct : AreDistinct (suffixes_of (build_endpoints cluster))
    distinct =
        AreDistinct-first (suffixes_of (build_endpoints cluster)) (stale_suffixes cluster)
          (build_endpoints-AreDistinct cluster)
