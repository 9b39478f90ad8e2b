-- ===== src/Controller/Steps/Fixed.antt =====
-- What the steps leave that are not loops: the account, its role, the config map and the budget.
use freeradius_k8s_operator.Shared.{
  ◌≡◌, refl, true, false, Option, none, some, inl, inr, Bool-cases,
}
use freeradius_k8s_operator.Shared.Int.{pos, int_lt}
use freeradius_k8s_operator.Api.Objects.{KubeTypes, RadiusCluster, PdbConfig}
use freeradius_k8s_operator.Renderer.Files.{ConfigFiles}
use freeradius_k8s_operator.Controller.Endpoints.Cleanup.{object_name}
use freeradius_k8s_operator.Controller.Objects.{Literals}
use freeradius_k8s_operator.Controller.Objects.Store.{ObjectKind, Store, IsLawful}
use freeradius_k8s_operator.Controller.Pod.{service_account_suffix, config_map_suffix}
use freeradius_k8s_operator.Controller.Steps.Calls.{◌then◌}
use freeradius_k8s_operator.Controller.Steps.Laws.{
  Answer, Has, IsMissing, Leaves, then-Leaves, then-Leaves_first, create-Spares, create-Leaves,
  delete-Leaves,
}
use freeradius_k8s_operator.Controller.Steps.Budgets.{
  pdb_suffix, pdb_spec, create_pdb, delete_pdb, pdb_on,
}
use freeradius_k8s_operator.Controller.Steps.Rbac.{
  role_suffix, role_binding_suffix, reader_rules, reader_binding, reconcile_service_account,
  reconcile_role, reconcile_role_binding, reconcile_rbac,
}
use freeradius_k8s_operator.Controller.Steps.ConfigMaps.{config_map_data, reconcile_config_map}

module _ {K : KubeTypes} {World : Type 0} (S : Store K World) (cluster : RadiusCluster K) where
  -- A budget that is configured, or that more than one replica asks for, is there; any other is not.
  abbrev pub IsAsBudgeted :
      Literals K → Option (PdbConfig K) → Answer S ObjectKind.disruption_budget → Type 0
  IsAsBudgeted literals none a =
      (int_lt (pos 1) cluster.spec.replicas ≡ true
        → Has S cluster ObjectKind.disruption_budget (some (pdb_spec literals cluster)) a)
      × (int_lt (pos 1) cluster.spec.replicas ≡ false
          → IsMissing S {k = ObjectKind.disruption_budget} a)
  IsAsBudgeted literals (some pdb) a =
      Has S cluster ObjectKind.disruption_budget (some (pdb_spec literals cluster)) a

  module _ (L : IsLawful K S) where
    pub service_account-Leaves :
        Leaves S ObjectKind.service_account
          (object_name cluster service_account_suffix)
          (Has S cluster ObjectKind.service_account tt)
          (reconcile_rbac S cluster)
    unfolding reconcile_rbac reconcile_service_account reconcile_role reconcile_role_binding
    service_account-Leaves =
        let n = object_name cluster service_account_suffix in
        let Q = Has S cluster ObjectKind.service_account tt in
        then-Leaves_first S ObjectKind.service_account n Q
          (reconcile_service_account S cluster then reconcile_role S cluster)
          (reconcile_role_binding S cluster)
          (then-Leaves_first S ObjectKind.service_account n Q (reconcile_service_account S cluster)
            (reconcile_role S cluster)
            (create-Leaves S L ObjectKind.service_account n cluster (λ sa. sa) tt
              (λ o. (refl, refl)))
            (create-Spares S L ObjectKind.service_account _ n _ _ (inl (λ e. cc))))
          (create-Spares S L ObjectKind.service_account _ n _ _ (inl (λ e. cc)))

    pub role-Leaves :
        Leaves S ObjectKind.role
          (object_name cluster role_suffix)
          (Has S cluster ObjectKind.role reader_rules)
          (reconcile_rbac S cluster)
    unfolding reconcile_rbac reconcile_role reconcile_role_binding
    role-Leaves =
        let n = object_name cluster role_suffix in
        let Q = Has S cluster ObjectKind.role reader_rules in
        then-Leaves_first S ObjectKind.role n Q
          (reconcile_service_account S cluster then reconcile_role S cluster)
          (reconcile_role_binding S cluster)
          (then-Leaves S ObjectKind.role n Q (reconcile_service_account S cluster)
            (reconcile_role S cluster)
            (create-Leaves S L ObjectKind.role n cluster (λ r. record r { content = reader_rules })
              reader_rules (λ o. (refl, refl))))
          (create-Spares S L ObjectKind.role _ n _ _ (inl (λ e. cc)))

    pub role_binding-Leaves :
        Leaves S ObjectKind.role_binding
          (object_name cluster role_binding_suffix)
          (Has S cluster ObjectKind.role_binding (reader_binding cluster))
          (reconcile_rbac S cluster)
    unfolding reconcile_rbac reconcile_role_binding
    role_binding-Leaves =
        let n = object_name cluster role_binding_suffix in
        then-Leaves S ObjectKind.role_binding n
          (Has S cluster ObjectKind.role_binding (reader_binding cluster))
          (reconcile_service_account S cluster then reconcile_role S cluster)
          (reconcile_role_binding S cluster)
          (create-Leaves S L ObjectKind.role_binding n cluster
            (λ rb. record rb { content = reader_binding cluster }) (reader_binding cluster)
            (λ o. (refl, refl)))

    pub config_map-Leaves :
        (files : ConfigFiles)
        → Leaves S ObjectKind.config_map
            (object_name cluster config_map_suffix)
            (Has S cluster ObjectKind.config_map (config_map_data files))
            (reconcile_config_map S cluster files)
    unfolding reconcile_config_map
    config_map-Leaves files =
        create-Leaves S L ObjectKind.config_map (object_name cluster config_map_suffix) cluster
          (λ cm. record cm { content = config_map_data files }) (config_map_data files)
          (λ o. (refl, refl))

    create_pdb-Leaves :
        (literals : Literals K)
        → Leaves S ObjectKind.disruption_budget
            (object_name cluster pdb_suffix)
            (Has S cluster ObjectKind.disruption_budget (some (pdb_spec literals cluster)))
            (create_pdb literals S cluster)
    unfolding create_pdb
    create_pdb-Leaves literals =
        create-Leaves S L ObjectKind.disruption_budget (object_name cluster pdb_suffix) cluster
          (λ b. record b { content = some (pdb_spec literals cluster) })
          (some (pdb_spec literals cluster)) (λ o. (refl, refl))

    pub pdb_on-Leaves :
        (literals : Literals K) (o : Option (PdbConfig K))
        → Leaves S ObjectKind.disruption_budget
            (object_name cluster pdb_suffix)
            (IsAsBudgeted literals o)
            (pdb_on literals S cluster o)
    unfolding pdb_on create_pdb delete_pdb
    pdb_on-Leaves literals none w done = elim (Bool-cases (int_lt (pos 1) cluster.spec.replicas)) [
      | inl e ↦ rw e (λ y. create_pdb-Leaves literals w (rw e at done), λ n. cc)
      | inr e ↦ rw e (
        λ y. cc,
        λ n.
            delete-Leaves S L ObjectKind.disruption_budget (object_name cluster pdb_suffix) w
              (rw e at done),
      )
    ]
    pdb_on-Leaves literals (some c) w done = create_pdb-Leaves literals w done
