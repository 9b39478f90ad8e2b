-- ===== src/Controller/Steps/Budgets.antt =====
-- `reconcilePDB` of internal/controller/radiuscluster_controller.go, with the suffix of
-- internal/controller/constants.go.
use freeradius_k8s_operator.Shared.{String, Option, none, some, if◌then◌else◌}
use freeradius_k8s_operator.Shared.Int.{pos, int_lt}
use freeradius_k8s_operator.Api.Objects.{KubeTypes, RadiusCluster, PdbConfig}
use freeradius_k8s_operator.Controller.Objects.Store.{ObjectKind, Store}
use freeradius_k8s_operator.Controller.Endpoints.{pod_labels}
use freeradius_k8s_operator.Controller.Endpoints.Cleanup.{object_name}
use freeradius_k8s_operator.Controller.Objects.{Literals, PdbSpec}
use freeradius_k8s_operator.Controller.Steps.Calls.{Step, owned, delete_existing}

-- The constant of the same name.
abbrev pub pdb_suffix : String
pdb_suffix = "-freeradius"

module _ {K : KubeTypes} (literals : Literals K) where
  open K use {IntOrString}

  -- The limits, of the configuration or by default.
  abbrev pub min_available_of : Option (PdbConfig K) → Option IntOrString
  min_available_of none = some (literals.from_int (pos 1))
  min_available_of (some pdb) = pdb.min_available

  abbrev pub max_unavailable_of : Option (PdbConfig K) → Option IntOrString
  max_unavailable_of none = none
  max_unavailable_of (some pdb) = pdb.max_unavailable

  -- The value that the closure gives to `pdb.Spec`.
  unfoldable pub pdb_spec : RadiusCluster K → PdbSpec K
  pdb_spec cluster = record {
    selector = pod_labels cluster.meta.name;
    min_available = min_available_of cluster.spec.pdb;
    max_unavailable = max_unavailable_of cluster.spec.pdb;
  }

  module _ {World : Type 0} (S : Store K World) where
    unfoldable pub create_pdb : RadiusCluster K → Step World
    unfolding pdb_spec
    create_pdb cluster w =
        S.create_or_update ObjectKind.disruption_budget (object_name cluster pdb_suffix)
          (owned S cluster λ pdb. record pdb { content = some (pdb_spec cluster) }) w

    unfoldable pub delete_pdb : RadiusCluster K → Step World
    delete_pdb cluster w =
        delete_existing S ObjectKind.disruption_budget (object_name cluster pdb_suffix) w

    -- The two ways, by the configured budget.
    unfoldable pub pdb_on : RadiusCluster K → Option (PdbConfig K) → Step World
    unfolding create_pdb delete_pdb
    pdb_on cluster none w =
        if int_lt (pos 1) cluster.spec.replicas then create_pdb cluster w else delete_pdb cluster w
    pdb_on cluster (some pdb) w = create_pdb cluster w

    unfoldable pub reconcile_pdb : RadiusCluster K → Step World
    unfolding pdb_on
    reconcile_pdb cluster w = pdb_on cluster cluster.spec.pdb w
