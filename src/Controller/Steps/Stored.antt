-- ===== src/Controller/Steps/Stored.antt =====
-- What a round of all steps leaves in the store when it returns no error.
use freeradius_k8s_operator.Shared.{String, ◌≡◌, ◌≢◌, List, ok, All, All-imp}
use freeradius_k8s_operator.Api.Objects.{KubeTypes, RadiusCluster}
use freeradius_k8s_operator.Kube.{NamespacedName, Kind}
use freeradius_k8s_operator.Renderer.Types.{SecretRef}
use freeradius_k8s_operator.Renderer.Files.{ConfigFiles}
use freeradius_k8s_operator.Controller.Endpoints.{build_endpoints, stale_suffixes}
use freeradius_k8s_operator.Controller.Endpoints.Cleanup.{object_name}
use freeradius_k8s_operator.Controller.Objects.{Literals}
use freeradius_k8s_operator.Controller.Objects.Store.{ObjectKind, Content, Store, IsLawful}
use freeradius_k8s_operator.Controller.Pod.{service_account_suffix, config_map_suffix}
use freeradius_k8s_operator.Controller.Steps.{reconcile_deployments_and_services, reconcile_objects}
use freeradius_k8s_operator.Controller.Steps.Calls.{◌then◌}
use freeradius_k8s_operator.Controller.Steps.Laws.{Has, IsMissing, Leaves, then-Leaves}
use freeradius_k8s_operator.Controller.Steps.PerEndpoint.{
  HasDeployment, HasService, IsAsScaled, deployments-Leave, services-Leave, hpas-Leave,
}
use freeradius_k8s_operator.Controller.Steps.Order.{from_rbac, from_first, from_hpas}
use freeradius_k8s_operator.Controller.Steps.Fixed.{
  IsAsBudgeted, service_account-Leaves, role-Leaves, role_binding-Leaves, config_map-Leaves,
  pdb_on-Leaves,
}
use freeradius_k8s_operator.Controller.Steps.Autoscalers.{reconcile_hpas}
use freeradius_k8s_operator.Controller.Steps.Budgets.{pdb_suffix, reconcile_pdb}
use freeradius_k8s_operator.Controller.Steps.Rbac.{
  role_suffix, role_binding_suffix, reader_rules, reader_binding, reconcile_rbac,
}
use freeradius_k8s_operator.Controller.Steps.ConfigMaps.{config_map_data, reconcile_config_map}
use freeradius_k8s_operator.Controller.Steps.Workloads.{
  All-both, distinct, endpoint_objects, stale_objects,
}

module _ {K : KubeTypes} (literals : Literals K) (image : String) {World : Type 0}
    (S : Store K World) (cluster : RadiusCluster K) (files : ConfigFiles) (refs : List SecretRef)
    (hash : String) where
  -- The store has what the steps put there.
  pub record IsStored (w : World) : Type 0 where
    pub service_account :
        Has S cluster ObjectKind.service_account tt
          (S.get ObjectKind.service_account (object_name cluster service_account_suffix) w)
    pub role :
        Has S cluster ObjectKind.role reader_rules
          (S.get ObjectKind.role (object_name cluster role_suffix) w)
    pub role_binding :
        Has S cluster ObjectKind.role_binding
          (reader_binding cluster)
          (S.get ObjectKind.role_binding (object_name cluster role_binding_suffix) w)
    pub config_map :
        Has S cluster ObjectKind.config_map
          (config_map_data files)
          (S.get ObjectKind.config_map (object_name cluster config_map_suffix) w)
    pub deployments :
        All
          (λ ep.
            HasDeployment cluster S literals image refs hash ep
              (S.get ObjectKind.deployment (object_name cluster ep.suffix) w))
          (build_endpoints cluster)
    pub services :
        All
          (λ ep.
            HasService cluster S ep (S.get ObjectKind.service (object_name cluster ep.suffix) w))
          (build_endpoints cluster)
    pub stale :
        All
          (λ s.
            IsMissing S {k = ObjectKind.deployment}
              (S.get ObjectKind.deployment (object_name cluster s) w)
            × IsMissing S {k = ObjectKind.service}
                (S.get ObjectKind.service (object_name cluster s) w))
          (stale_suffixes cluster)
    pub autoscalers :
        All
          (λ ep.
            IsAsScaled cluster S ep ep.autoscale
              (S.get ObjectKind.autoscaler (object_name cluster ep.suffix) w))
          (build_endpoints cluster)
    pub budget :
        IsAsBudgeted S cluster literals cluster.spec.pdb
          (S.get ObjectKind.disruption_budget (object_name cluster pdb_suffix) w)

  module _ (L : IsLawful K S) where
    -- An object of the step on the account and its role.
    from_account :
        (k : ObjectKind) (n : NamespacedName) (c : Content K k)
        → Leaves S k n (Has S cluster k c) (reconcile_rbac S cluster)
        → k ≢ ObjectKind.config_map
        → k ≢ ObjectKind.deployment
        → k ≢ ObjectKind.service
        → k ≢ ObjectKind.autoscaler
        → k ≢ ObjectKind.disruption_budget
        → Leaves S k n
            (Has S cluster k c)
            (reconcile_objects literals image S cluster files refs hash)
    unfolding reconcile_objects
    from_account k n c =
        from_rbac literals image S cluster files refs hash L k n (Has S cluster k c)

    autoscaler_objects :
        (w : World)
        → (reconcile_objects literals image S cluster files refs hash w).1 ≡ ok tt
        → All
            (λ ep. IsAsScaled cluster S ep ep.autoscale (
              S.get ObjectKind.autoscaler
                (object_name cluster ep.suffix)
                (reconcile_objects literals image S cluster files refs hash w).0))
            (build_endpoints cluster)
    unfolding reconcile_objects reconcile_hpas
    autoscaler_objects w done =
        All-imp
          (λ ep l.
            from_hpas literals image S cluster files refs hash L ObjectKind.autoscaler
              (object_name cluster ep.suffix) (IsAsScaled cluster S ep ep.autoscale) l (λ e. cc) w
              done)
          (build_endpoints cluster)
          (hpas-Leave cluster S L (build_endpoints cluster)
            (distinct literals image S cluster files refs hash L))

    config_map_object :
        (w : World)
        → (reconcile_objects literals image S cluster files refs hash w).1 ≡ ok tt
        → Has S cluster ObjectKind.config_map (config_map_data files) (
            S.get ObjectKind.config_map
              (object_name cluster config_map_suffix)
              (reconcile_objects literals image S cluster files refs hash w).0)
    unfolding reconcile_objects
    config_map_object =
        let n = object_name cluster config_map_suffix in
        let Q = Has S cluster ObjectKind.config_map (config_map_data files) in
        from_first literals image S cluster files refs hash L ObjectKind.config_map n Q
          (then-Leaves S ObjectKind.config_map n Q (reconcile_rbac S cluster)
            (reconcile_config_map S cluster files) (config_map-Leaves S cluster L files))
          (λ e. cc) (λ e. cc) (λ e. cc) (λ e. cc)

    budget_object :
        (w : World)
        → (reconcile_objects literals image S cluster files refs hash w).1 ≡ ok tt
        → IsAsBudgeted S cluster literals cluster.spec.pdb (
            S.get ObjectKind.disruption_budget
              (object_name cluster pdb_suffix)
              (reconcile_objects literals image S cluster files refs hash w).0)
    unfolding reconcile_objects reconcile_pdb
    budget_object =
        then-Leaves S ObjectKind.disruption_budget (object_name cluster pdb_suffix)
          (IsAsBudgeted S cluster literals cluster.spec.pdb)
          (reconcile_rbac S cluster
            then reconcile_config_map S cluster files
            then reconcile_deployments_and_services literals image S cluster refs hash
            then reconcile_hpas S cluster)
          (reconcile_pdb literals S cluster) (pdb_on-Leaves S cluster L literals cluster.spec.pdb)

    -- When the store is lawful and the steps return no error, the store has what they put there.
    pub reconcile_objects-IsStored :
        (w : World)
        → (reconcile_objects literals image S cluster files refs hash w).1 ≡ ok tt
        → IsStored (reconcile_objects literals image S cluster files refs hash w).0
    reconcile_objects-IsStored w done = record {
      service_account =
          from_account ObjectKind.service_account (object_name cluster service_account_suffix) tt
            (service_account-Leaves S cluster L) (λ e. cc) (λ e. cc) (λ e. cc) (λ e. cc) (λ e. cc) w
            done;
      role =
          from_account ObjectKind.role (object_name cluster role_suffix) reader_rules
            (role-Leaves S cluster L) (λ e. cc) (λ e. cc) (λ e. cc) (λ e. cc) (λ e. cc) w done;
      role_binding =
          from_account ObjectKind.role_binding (object_name cluster role_binding_suffix)
            (reader_binding cluster) (role_binding-Leaves S cluster L) (λ e. cc) (λ e. cc) (λ e. cc)
            (λ e. cc) (λ e. cc) w done;
      config_map = config_map_object w done;
      deployments =
          endpoint_objects literals image S cluster files refs hash L Kind.deployment
            (HasDeployment cluster S literals image refs hash) (λ e. cc) (λ e. cc)
            (deployments-Leave cluster S L literals image refs hash (build_endpoints cluster)
              (distinct literals image S cluster files refs hash L))
            w done;
      services =
          endpoint_objects literals image S cluster files refs hash L Kind.service
            (HasService cluster S) (λ e. cc) (λ e. cc)
            (services-Leave cluster S L literals image refs hash (build_endpoints cluster)
              (distinct literals image S cluster files refs hash L))
            w done;
      stale =
          All-both _ _ (stale_suffixes cluster)
            (stale_objects literals image S cluster files refs hash L Kind.deployment (λ e. cc)
              (λ e. cc) w done)
            (stale_objects literals image S cluster files refs hash L Kind.service (λ e. cc)
              (λ e. cc) w done);
      autoscalers = autoscaler_objects w done;
      budget = budget_object w done;
    }
