-- ===== src/Controller/Steps/PerEndpoint.antt =====
-- What the loops over the endpoints leave: the deployment, the service and the autoscaler of each.
use freeradius_k8s_operator.Shared.{
  String, ◌≡◌, ◌≢◌, refl, ap, true, false, List, [], ◌∷◌, Option, none, some, inl, inr,
  append-cancel, All, All-imp, AreDistinct, is_in, ◌==◌, eq_iff, Bool-cases,
}
use freeradius_k8s_operator.Api.Objects.{KubeTypes, RadiusCluster}
use freeradius_k8s_operator.Api.Cluster.{AutoscalingConfig, ServiceConfig}
use freeradius_k8s_operator.Kube.{NamespacedName}
use freeradius_k8s_operator.Renderer.Types.{SecretRef}
use freeradius_k8s_operator.Controller.Endpoints.{EndpointDef}
use freeradius_k8s_operator.Controller.Endpoints.Names.{suffixes_of}
use freeradius_k8s_operator.Controller.Endpoints.Cleanup.{object_name}
use freeradius_k8s_operator.Controller.Objects.{Literals}
use freeradius_k8s_operator.Controller.Objects.Store.{ObjectKind, Store, IsLawful}
use freeradius_k8s_operator.Controller.Steps.{endpoints_step}
use freeradius_k8s_operator.Controller.Steps.Calls.{Step, ◌then◌}
use freeradius_k8s_operator.Controller.Steps.Laws.{
  Answer, Holds, Has, IsOwned, IsMissing, Spares, Leaves, then-Spares, then-Leaves,
  then-Leaves_first, create-Spares, create-Holds, create-Leaves, delete-Spares, delete-Leaves,
}
use freeradius_k8s_operator.Controller.Steps.Deployments.{deployment_spec, reconcile_one_deployment}
use freeradius_k8s_operator.Controller.Steps.Services.{
  service_spec, given_or_old, service_annotations, reconcile_one_service,
}
use freeradius_k8s_operator.Controller.Steps.Autoscalers.{
  hpa_spec, create_hpa, delete_hpa, hpa_on, reconcile_one_hpa, hpas_of,
}

module _ {K : KubeTypes} (cluster : RadiusCluster K) where
  object_name-cancel : (s t : String) → object_name cluster s ≡ object_name cluster t → s ≡ t
  unfolding object_name
  object_name-cancel s t e =
      append-cancel cluster.meta.name s t (ap (λ (n : NamespacedName). n.name) e)

  -- The object of a suffix is none of the endpoints'.
  abbrev pub IsApart : String → List EndpointDef → Type 0
  IsApart s eps = All (λ e. object_name cluster s ≢ object_name cluster e.suffix) eps

  apart : (s : String) (eps : List EndpointDef) → is_in s (suffixes_of eps) ≡ false → IsApart s eps
  apart s [] h = tt
  apart s (e ∷ eps) h = elim (Bool-cases (s == e.suffix)) [
    | inl f ↦ cc (rw f at h)
    | inr f ↦ (
      λ same. cc ((eq_iff s e.suffix).1 (object_name-cancel s e.suffix same)),
      apart s eps (rw f at h),
    )
  ]

  module _ {World : Type 0} (S : Store K World) where
    module _ (literals : Literals K) (image : String) (refs : List SecretRef) (hash : String) where
      abbrev pub HasDeployment : EndpointDef → Answer S ObjectKind.deployment → Type 0
      HasDeployment ep =
          Has S cluster ObjectKind.deployment
            (some (deployment_spec literals image cluster refs hash ep))

    -- What is given is there; nothing is asked of the annotations where none are given.
    abbrev AreGiven : List (String × String) → List (String × String) → Type 0
    AreGiven [] all = Unit
    AreGiven (a ∷ given) all = all ≡ a ∷ given

    abbrev pub IsAnnotated : Option ServiceConfig → List (String × String) → Type 0
    IsAnnotated none all = Unit
    IsAnnotated (some c) all = AreGiven c.annotations all

    abbrev pub HasService : EndpointDef → Answer S ObjectKind.service → Type 0
    HasService ep = Holds S {k = ObjectKind.service} λ o.
        (o.content ≡ some (service_spec cluster ep))
        × IsOwned S cluster o.owners
        × IsAnnotated ep.svc_cfg o.annotations

    -- An endpoint with an autoscaling that is on has its autoscaler, and every other has none.
    abbrev pub IsAsScaled :
        EndpointDef → Option AutoscalingConfig → Answer S ObjectKind.autoscaler → Type 0
    IsAsScaled ep none a = IsMissing S {k = ObjectKind.autoscaler} a
    IsAsScaled ep (some c) a =
        (c.enabled ≡ true → Has S cluster ObjectKind.autoscaler (some (hpa_spec cluster ep c)) a)
        × (c.enabled ≡ false → IsMissing S {k = ObjectKind.autoscaler} a)

  module _ {World : Type 0} (S : Store K World) (L : IsLawful K S) where
    module _ (literals : Literals K) (image : String) (refs : List SecretRef) (hash : String) where
      abbrev loop : List EndpointDef → Step World
      loop eps = endpoints_step literals image S cluster refs hash eps

      abbrev body : EndpointDef → Step World
      body ep =
          reconcile_one_deployment literals image S cluster refs hash ep
          then reconcile_one_service S cluster ep

      loop-Spares :
          (j : ObjectKind) (s : String) (eps : List EndpointDef)
          → IsApart s eps
          → Spares S j (object_name cluster s) (loop eps)
      unfolding endpoints_step reconcile_one_deployment reconcile_one_service
      loop-Spares j s [] h w = refl
      loop-Spares j s (ep ∷ eps) (a, h) w =
          then-Spares S j (object_name cluster s) (body ep) (loop eps)
            (then-Spares S j (object_name cluster s)
              (reconcile_one_deployment literals image S cluster refs hash ep)
              (reconcile_one_service S cluster ep) (create-Spares S L j _ _ _ _ (inr a))
              (create-Spares S L j _ _ _ _ (inr a)))
            (loop-Spares j s eps h) w

      body-deployment :
          (ep : EndpointDef)
          → Leaves S ObjectKind.deployment
              (object_name cluster ep.suffix)
              (HasDeployment S literals image refs hash ep)
              (body ep)
      unfolding reconcile_one_deployment reconcile_one_service
      body-deployment ep =
          then-Leaves_first S ObjectKind.deployment (object_name cluster ep.suffix)
            (HasDeployment S literals image refs hash ep)
            (reconcile_one_deployment literals image S cluster refs hash ep)
            (reconcile_one_service S cluster ep)
            (create-Leaves S L ObjectKind.deployment (object_name cluster ep.suffix) cluster
              (λ deploy. record deploy {
                content = some (deployment_spec literals image cluster refs hash ep);
              })
              (some (deployment_spec literals image cluster refs hash ep)) (λ o. (refl, refl)))
            (create-Spares S L ObjectKind.deployment _ _ _ _ (inl (λ e. cc)))

      given_or_old-AreGiven :
          (given old : List (String × String)) → AreGiven S given (given_or_old given old)
      unfolding given_or_old
      given_or_old-AreGiven [] old = tt
      given_or_old-AreGiven (a ∷ given) old = refl

      service_annotations-IsAnnotated :
          (cfg : Option ServiceConfig) (old : List (String × String))
          → IsAnnotated S cfg (service_annotations cfg old)
      unfolding service_annotations
      service_annotations-IsAnnotated none old = tt
      service_annotations-IsAnnotated (some c) old = given_or_old-AreGiven c.annotations old

      body-service :
          (ep : EndpointDef)
          → Leaves S ObjectKind.service (object_name cluster ep.suffix) (HasService S ep) (body ep)
      unfolding reconcile_one_service
      body-service ep =
          then-Leaves S ObjectKind.service (object_name cluster ep.suffix) (HasService S ep)
            (reconcile_one_deployment literals image S cluster refs hash ep)
            (reconcile_one_service S cluster ep)
            (create-Holds S L ObjectKind.service (object_name cluster ep.suffix) cluster
              (λ svc. record svc {
                annotations = service_annotations ep.svc_cfg svc.annotations;
                content = some (service_spec cluster ep);
              })
              _ (λ o w. (refl, w, service_annotations-IsAnnotated ep.svc_cfg o.annotations)))

      -- What each body leaves at the name of its own endpoint, the loop leaves.
      loop-Leaves :
          (k : ObjectKind) (Q : EndpointDef → Answer S k → Type 0)
          → ((ep : EndpointDef) → Leaves S k (object_name cluster ep.suffix) (Q ep) (body ep))
          → (eps : List EndpointDef) → AreDistinct (suffixes_of eps)
          → All (λ ep. Leaves S k (object_name cluster ep.suffix) (Q ep) (loop eps)) eps
      unfolding endpoints_step
      loop-Leaves k Q each [] h = tt
      loop-Leaves k Q each (ep ∷ eps) (a, h) = (
        then-Leaves_first S k (object_name cluster ep.suffix) (Q ep) (body ep) (loop eps) (each ep)
            (loop-Spares k ep.suffix eps (apart ep.suffix eps a)),
        All-imp (λ e l. then-Leaves S k (object_name cluster e.suffix) (Q e) (body ep) (loop eps) l)
            eps (loop-Leaves k Q each eps h),
      )

      -- After the loop each endpoint has its deployment, and its service.
      pub deployments-Leave :
          (eps : List EndpointDef)
          → AreDistinct (suffixes_of eps)
          → All
              (λ ep.
                Leaves S ObjectKind.deployment
                  (object_name cluster ep.suffix)
                  (HasDeployment S literals image refs hash ep)
                  (loop eps))
              eps
      deployments-Leave =
          loop-Leaves ObjectKind.deployment (HasDeployment S literals image refs hash)
            body-deployment

      pub services-Leave :
          (eps : List EndpointDef)
          → AreDistinct (suffixes_of eps)
          → All
              (λ ep.
                Leaves S ObjectKind.service
                  (object_name cluster ep.suffix)
                  (HasService S ep)
                  (loop eps))
              eps
      services-Leave = loop-Leaves ObjectKind.service (HasService S) body-service

    hpa_on-Leaves :
        (ep : EndpointDef) (o : Option AutoscalingConfig)
        → Leaves S ObjectKind.autoscaler
            (object_name cluster ep.suffix)
            (IsAsScaled S ep o)
            (hpa_on S cluster ep o)
    unfolding hpa_on create_hpa delete_hpa
    hpa_on-Leaves ep none w done =
        delete-Leaves S L ObjectKind.autoscaler (object_name cluster ep.suffix) w done
    hpa_on-Leaves ep (some c) w done = elim (Bool-cases c.enabled) [
      | inl e ↦ rw e (
        λ y.
            create-Leaves S L ObjectKind.autoscaler (object_name cluster ep.suffix) cluster
              (λ hpa. record hpa { content = some (hpa_spec cluster ep c) })
              (some (hpa_spec cluster ep c)) (λ o. (refl, refl)) w (rw e at done),
        λ n. cc,
      )
      | inr e ↦ rw e (
        λ y. cc,
        λ n.
            delete-Leaves S L ObjectKind.autoscaler (object_name cluster ep.suffix) w
              (rw e at done),
      )
    ]

    hpa_on-Spares :
        (s : String) (ep : EndpointDef) (o : Option AutoscalingConfig)
        → object_name cluster s ≢ object_name cluster ep.suffix
        → Spares S ObjectKind.autoscaler (object_name cluster s) (hpa_on S cluster ep o)
    unfolding hpa_on create_hpa delete_hpa
    hpa_on-Spares s ep none a w = delete-Spares S L _ _ _ _ (inr a) w
    hpa_on-Spares s ep (some c) a w = elim (Bool-cases c.enabled) [
      | inl e ↦
          rw e (create-Spares S L ObjectKind.autoscaler _ (object_name cluster s) _ _ (inr a) w)
      | inr e ↦ rw e (delete-Spares S L ObjectKind.autoscaler _ (object_name cluster s) _ (inr a) w)
    ]

    hpas_of-Spares :
        (s : String) (eps : List EndpointDef)
        → IsApart s eps
        → Spares S ObjectKind.autoscaler (object_name cluster s) (hpas_of S cluster eps)
    unfolding hpas_of reconcile_one_hpa
    hpas_of-Spares s [] h w = refl
    hpas_of-Spares s (ep ∷ eps) (a, h) w =
        then-Spares S ObjectKind.autoscaler (object_name cluster s) (reconcile_one_hpa S cluster ep)
          (hpas_of S cluster eps) (hpa_on-Spares s ep ep.autoscale a) (hpas_of-Spares s eps h) w

    pub hpas-Leave :
        (eps : List EndpointDef)
        → AreDistinct (suffixes_of eps)
        → All
            (λ ep.
              Leaves S ObjectKind.autoscaler
                (object_name cluster ep.suffix)
                (IsAsScaled S ep ep.autoscale)
                (hpas_of S cluster eps))
            eps
    unfolding hpas_of reconcile_one_hpa
    hpas-Leave [] h = tt
    hpas-Leave (ep ∷ eps) (a, h) = (
      then-Leaves_first S ObjectKind.autoscaler (object_name cluster ep.suffix)
          (IsAsScaled S ep ep.autoscale) (reconcile_one_hpa S cluster ep) (hpas_of S cluster eps)
          (hpa_on-Leaves ep ep.autoscale) (hpas_of-Spares ep.suffix eps (apart ep.suffix eps a)),
      All-imp
          (λ e l.
            then-Leaves S ObjectKind.autoscaler (object_name cluster e.suffix)
              (IsAsScaled S e e.autoscale) (reconcile_one_hpa S cluster ep) (hpas_of S cluster eps)
              l)
          eps (hpas-Leave eps h),
    )
