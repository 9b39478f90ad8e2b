-- ===== src/Controller/Steps/Rbac.antt =====
-- `reconcileRBAC` of internal/controller/radiuscluster_controller.go, with the suffixes of
-- internal/controller/constants.go.
use freeradius_k8s_operator.Shared.{String, [], ◌∷◌, some, append, List}
use freeradius_k8s_operator.Api.Objects.{KubeTypes, RadiusCluster}
use freeradius_k8s_operator.Controller.Objects.Store.{ObjectKind, Store}
use freeradius_k8s_operator.Controller.Endpoints.Cleanup.{object_name}
use freeradius_k8s_operator.Controller.Objects.{PolicyRule, RoleBinding}
use freeradius_k8s_operator.Controller.Pod.{service_account_suffix}
use freeradius_k8s_operator.Controller.Steps.Calls.{Step, ◌then◌, owned}

-- The constants of the same names.
abbrev pub role_suffix : String
role_suffix = "-freeradius-client-reader"

abbrev pub role_binding_suffix : String
role_binding_suffix = "-freeradius-client-reader"

-- The value of `role.Rules`.
abbrev pub reader_rules : List PolicyRule
reader_rules =
    record {
      api_groups = "radius.operator.io" ∷ [];
      resources = "radiusclients" ∷ [];
      verbs = "get" ∷ "list" ∷ "watch" ∷ [];
    }
    ∷ []

-- The values of `rb.RoleRef` and `rb.Subjects`.
unfoldable pub reader_binding : {K : KubeTypes} → RadiusCluster K → RoleBinding
reader_binding cluster = record {
  role_ref = some (record {
    api_group = "rbac.authorization.k8s.io";
    kind = "Role";
    name = append cluster.meta.name role_suffix;
  });
  subjects =
      record {
        kind = "ServiceAccount";
        name = append cluster.meta.name service_account_suffix;
        namespace = cluster.meta.namespace;
      }
      ∷ [];
}

module _ {K : KubeTypes} {World : Type 0} (S : Store K World) where
  unfoldable pub reconcile_service_account : RadiusCluster K → Step World
  reconcile_service_account cluster w =
      S.create_or_update ObjectKind.service_account (object_name cluster service_account_suffix)
        (owned S cluster λ sa. sa) w

  unfoldable pub reconcile_role : RadiusCluster K → Step World
  reconcile_role cluster w =
      S.create_or_update ObjectKind.role (object_name cluster role_suffix)
        (owned S cluster λ role. record role { content = reader_rules }) w

  unfoldable pub reconcile_role_binding : RadiusCluster K → Step World
  unfolding reader_binding
  reconcile_role_binding cluster w =
      S.create_or_update ObjectKind.role_binding (object_name cluster role_binding_suffix)
        (owned S cluster λ rb. record rb { content = reader_binding cluster }) w

  unfoldable pub reconcile_rbac : RadiusCluster K → Step World
  unfolding reconcile_service_account reconcile_role reconcile_role_binding
  reconcile_rbac cluster =
      reconcile_service_account cluster
      then reconcile_role cluster
      then reconcile_role_binding cluster
