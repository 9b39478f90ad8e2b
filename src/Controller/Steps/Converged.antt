-- ===== src/Controller/Steps/Converged.antt =====
-- A round of all steps leaves what the cluster asks for.
use freeradius_k8s_operator.Shared.{
  String, ◌≡◌, refl, sym, ap, ◌∙◌, subst, true, false, List, Option, none, some, err, All, All-imp,
  map,
}
use freeradius_k8s_operator.Shared.Int.{pos, int_lt}
use freeradius_k8s_operator.Api.Cluster.{AutoscalingConfig}
use freeradius_k8s_operator.Api.Objects.{KubeTypes, RadiusCluster, PdbConfig}
use freeradius_k8s_operator.Kube.{not_found}
use freeradius_k8s_operator.Renderer.Types.{SecretRef}
use freeradius_k8s_operator.Renderer.Files.{ConfigFiles}
use freeradius_k8s_operator.Controller.Endpoints.{EndpointDef, build_endpoints, stale_suffixes}
use freeradius_k8s_operator.Controller.Endpoints.Cleanup.{object_name}
use freeradius_k8s_operator.Controller.Objects.{Literals}
use freeradius_k8s_operator.Controller.Objects.Store.{ObjectKind, Content, Store, IsReadable}
use freeradius_k8s_operator.Controller.Steps.Laws.{Holds, Has, IsMissing, IsOwned}
use freeradius_k8s_operator.Controller.Steps.Wanted.{
  endpoint, wanted_endpoints, unwanted_suffixes, IsDeployment, IsService, IsAutoscaler, IsBudget,
  IsReader, IsBinding,
}
use freeradius_k8s_operator.Controller.Steps.Rbac.{reader_rules, reader_binding}
use freeradius_k8s_operator.Controller.Steps.ConfigMaps.{config_map_data}
use freeradius_k8s_operator.Controller.Steps.PerEndpoint.{IsAnnotated, IsAsScaled}
use freeradius_k8s_operator.Controller.Steps.Fixed.{IsAsBudgeted}
use freeradius_k8s_operator.Controller.Steps.Stored.{IsStored}
use freeradius_k8s_operator.Controller.Steps.Meets.{
  endpoints-wanted, stale-unwanted, reader_binding-IsBinding, service_spec-IsService,
  hpa_spec-IsAutoscaler, pdb_spec-IsBudget, deployment_spec-IsDeployment,
}

module _ {K : KubeTypes} (literals : Literals K) (image : String) {World : Type 0}
    (S : Store K World) (cluster : RadiusCluster K) (files : ConfigFiles) (refs : List SecretRef)
    (hash : String) where
  -- The object under the suffix is the cluster's, and the predicate holds of its content.
  abbrev pub Wants : (k : ObjectKind) → String → (Content K k → Type 0) → World → Type 0
  Wants k suffix Q w =
      Holds S {k = k} (λ o. Q o.content × IsOwned S cluster o.owners)
        (S.get k (object_name cluster suffix) w)

  -- There is no object under the suffix.
  abbrev pub IsGone : ObjectKind → String → World → Type 0
  IsGone k suffix w = S.get k (object_name cluster suffix) w ≡ err not_found

  -- An endpoint whose autoscaling is on has its autoscaler, and every other has none.
  abbrev pub IsScaled : EndpointDef → Option AutoscalingConfig → World → Type 0
  IsScaled ep none w = IsGone ObjectKind.autoscaler ep.suffix w
  IsScaled ep (some a) w =
      (a.enabled ≡ true → Wants ObjectKind.autoscaler ep.suffix (IsAutoscaler cluster ep a) w)
      × (a.enabled ≡ false → IsGone ObjectKind.autoscaler ep.suffix w)

  -- A cluster with a configured budget or with several replicas has its budget, and every other has
  -- none.
  abbrev pub IsBudgeted : Option (PdbConfig K) → World → Type 0
  IsBudgeted none w =
      (int_lt (pos 1) cluster.spec.replicas ≡ true
        → Wants ObjectKind.disruption_budget "-freeradius" (IsBudget literals cluster) w)
      × (int_lt (pos 1) cluster.spec.replicas ≡ false
          → IsGone ObjectKind.disruption_budget "-freeradius" w)
  IsBudgeted (some p) w =
      Wants ObjectKind.disruption_budget "-freeradius" (IsBudget literals cluster) w

  -- The endpoint's service, with the annotations that are configured.
  abbrev pub IsServed : EndpointDef → World → Type 0
  IsServed ep w =
      Holds S {k = ObjectKind.service}
        (λ o.
          IsService cluster ep o.content
          × IsOwned S cluster o.owners
          × IsAnnotated cluster S ep.svc_cfg o.annotations)
        (S.get ObjectKind.service (object_name cluster ep.suffix) w)

  -- The store has what the cluster, the rendered files, the secrets and the hash ask for.
  pub record IsConverged (w : World) : Type 0 where
    pub service_account : Wants ObjectKind.service_account "-freeradius" (λ c. Unit) w
    pub role : Wants ObjectKind.role "-freeradius-client-reader" IsReader w
    pub role_binding :
        Wants ObjectKind.role_binding "-freeradius-client-reader" (IsBinding cluster) w
    pub config_map :
        Wants ObjectKind.config_map "-freeradius-config" (λ c. c ≡ config_map_data files) w
    pub endpoints :
        map endpoint (build_endpoints cluster) ≡ wanted_endpoints cluster cluster.spec.services
    pub deployments :
        All
          (λ ep.
            Wants ObjectKind.deployment ep.suffix
              (IsDeployment literals image cluster refs hash ep)
              w)
          (build_endpoints cluster)
    pub services : All (λ ep. IsServed ep w) (build_endpoints cluster)
    pub stale :
        All
          (λ s. IsGone ObjectKind.deployment s w × IsGone ObjectKind.service s w)
          (unwanted_suffixes cluster.spec.services)
    pub autoscalers : All (λ ep. IsScaled ep ep.autoscale w) (build_endpoints cluster)
    pub budget : IsBudgeted cluster.spec.pdb w

  module _ (readable : IsReadable K S) where
    wants :
        (k : ObjectKind) (suffix : String) (Q : Content K k → Type 0) (c : Content K k) (w : World)
        → Q c
        → Has S cluster k c (S.get k (object_name cluster suffix) w)
        → Wants k suffix Q w
    wants k suffix Q c w q (o, found, (same, owned)) = (o, found, (subst Q (sym same) q, owned))

    gone :
        (k : ObjectKind) (suffix : String) (w : World)
        → IsMissing S {k = k} (S.get k (object_name cluster suffix) w)
        → IsGone k suffix w
    gone k suffix w (e, f) = f ∙ ap err (readable k _ w e f)

    scaled :
        (ep : EndpointDef) (o : Option AutoscalingConfig) (w : World)
        → IsAsScaled cluster S ep o (S.get ObjectKind.autoscaler (object_name cluster ep.suffix) w)
        → IsScaled ep o w
    scaled ep none w h = gone ObjectKind.autoscaler ep.suffix w h
    scaled ep (some a) w (y, n) = (
      λ e.
          wants ObjectKind.autoscaler ep.suffix (IsAutoscaler cluster ep a) _ w
            (hpa_spec-IsAutoscaler cluster ep a) (y e),
      λ e. gone ObjectKind.autoscaler ep.suffix w (n e),
    )

    budgeted :
        (o : Option (PdbConfig K)) (w : World)
        → IsAsBudgeted S cluster literals o
            (S.get ObjectKind.disruption_budget (object_name cluster "-freeradius") w)
        → IsBudgeted o w
    budgeted none w (y, n) = (
      λ e.
          wants ObjectKind.disruption_budget "-freeradius" (IsBudget literals cluster) _ w
            (pdb_spec-IsBudget cluster literals) (y e),
      λ e. gone ObjectKind.disruption_budget "-freeradius" w (n e),
    )
    budgeted (some p) w h =
        wants ObjectKind.disruption_budget "-freeradius" (IsBudget literals cluster) _ w
          (pdb_spec-IsBudget cluster literals) h

    -- What the steps put there is what is asked for.
    pub IsStored-IsConverged :
        (w : World) → IsStored literals image S cluster files refs hash w → IsConverged w
    unfolding build_endpoints stale_suffixes
    IsStored-IsConverged w h = record {
      service_account = wants ObjectKind.service_account "-freeradius" _ tt w tt h.service_account;
      role =
          wants ObjectKind.role "-freeradius-client-reader" IsReader reader_rules w
            (_, refl, refl, refl, refl) h.role;
      role_binding =
          wants ObjectKind.role_binding "-freeradius-client-reader" (IsBinding cluster)
            (reader_binding cluster) w (reader_binding-IsBinding cluster) h.role_binding;
      config_map =
          wants ObjectKind.config_map "-freeradius-config" (λ c. c ≡ config_map_data files) _ w refl
            h.config_map;
      endpoints = endpoints-wanted cluster cluster.spec.services;
      deployments =
          All-imp
            (λ ep d.
              wants ObjectKind.deployment ep.suffix
                (IsDeployment literals image cluster refs hash ep) _ w
                (deployment_spec-IsDeployment cluster literals image refs hash ep) d)
            (build_endpoints cluster) h.deployments;
      services =
          All-imp
            (λ ep (o, found, (same, owned, annotated)). (
              o,
              found,
              (
                subst (IsService cluster ep) (sym same) (service_spec-IsService cluster ep),
                owned,
                annotated,
              ),
            ))
            (build_endpoints cluster) h.services;
      stale =
          subst (All (λ s. IsGone ObjectKind.deployment s w × IsGone ObjectKind.service s w))
            (stale-unwanted cluster cluster.spec.services)
            (All-imp (λ s (d, v). (gone ObjectKind.deployment s w d, gone ObjectKind.service s w v))
              (stale_suffixes cluster) h.stale);
      autoscalers =
          All-imp (λ ep a. scaled ep ep.autoscale w a) (build_endpoints cluster) h.autoscalers;
      budget = budgeted cluster.spec.pdb w h.budget;
    }
