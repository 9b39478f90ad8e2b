-- ===== src/Controller/Steps.antt =====
-- `reconcileDeploymentsAndServices` and the list of steps in `Reconcile` of
-- internal/controller/radiuscluster_controller.go, in their order.
pub mod Calls
pub mod Laws
pub mod Order
pub mod Fixed
pub mod Cleaned
pub mod Stored
pub mod Workloads
pub mod Wanted
pub mod Meets
pub mod Converged
pub mod Finishes
pub mod PerEndpoint
pub mod Untouched
pub mod Deployments
pub mod Services
pub mod Autoscalers
pub mod Budgets
pub mod Rbac
pub mod ConfigMaps
use freeradius_k8s_operator.Shared.{String, List, [], ◌∷◌, ok, err, Result, Check}
use freeradius_k8s_operator.Api.Objects.{KubeTypes, RadiusCluster}
use freeradius_k8s_operator.Kube.{KubeError, Kind, deployment, service, ObjectClient}
use freeradius_k8s_operator.Renderer.Types.{SecretRef}
use freeradius_k8s_operator.Renderer.Files.{ConfigFiles}
use freeradius_k8s_operator.Controller.Endpoints.{EndpointDef, build_endpoints}
use freeradius_k8s_operator.Controller.Endpoints.Cleanup.{cleanup_stale_resources}
use freeradius_k8s_operator.Controller.Objects.{Literals}
use freeradius_k8s_operator.Controller.Objects.Store.{ObjectKind, Object, Store}
use freeradius_k8s_operator.Controller.Steps.Calls.{Step, next_step, ◌then◌}
use freeradius_k8s_operator.Controller.Steps.Deployments.{reconcile_one_deployment}
use freeradius_k8s_operator.Controller.Steps.Services.{reconcile_one_service}
use freeradius_k8s_operator.Controller.Steps.Autoscalers.{reconcile_hpas}
use freeradius_k8s_operator.Controller.Steps.Budgets.{reconcile_pdb}
use freeradius_k8s_operator.Controller.Steps.Rbac.{reconcile_rbac}
use freeradius_k8s_operator.Controller.Steps.ConfigMaps.{reconcile_config_map}

abbrev pub object_kind : Kind → ObjectKind
object_kind deployment = ObjectKind.deployment
object_kind service = ObjectKind.service

-- The part of the store that the clean-up uses.
abbrev pub object_client : {K : KubeTypes} {World : Type 0} → Store K World → ObjectClient
object_client {K} {World} S = record {
  World = World;
  Found = λ k. Object K S.Owners (object_kind k);
  get = λ k n w. S.get (object_kind k) n w;
  delete = λ k n w. S.delete (object_kind k) n w;
}

module _ {K : KubeTypes} (literals : Literals K) (image : String) {World : Type 0}
    (S : Store K World) where
  -- The loop over the endpoints.
  unfoldable pub endpoints_step :
      RadiusCluster K → List SecretRef → String → List EndpointDef → Step World
  endpoints_step cluster secret_refs config_hash [] w = (w, ok tt)
  endpoints_step cluster secret_refs config_hash (ep ∷ eps) w =
      next_step
        ((reconcile_one_deployment literals image S cluster secret_refs config_hash ep
            then reconcile_one_service S cluster ep)
          w)
        (endpoints_step cluster secret_refs config_hash eps)

  unfoldable pub reconcile_deployments_and_services :
      RadiusCluster K → List SecretRef → String → Step World
  unfolding endpoints_step
  reconcile_deployments_and_services cluster secret_refs config_hash =
      endpoints_step cluster secret_refs config_hash (build_endpoints cluster)
      then cleanup_stale_resources (object_client S) cluster

  -- The loop over the steps.
  unfoldable pub reconcile_objects :
      RadiusCluster K → ConfigFiles → List SecretRef → String → Step World
  unfolding reconcile_deployments_and_services
  reconcile_objects cluster files secret_refs config_hash =
      reconcile_rbac S cluster
      then reconcile_config_map S cluster files
      then reconcile_deployments_and_services cluster secret_refs config_hash
      then reconcile_hpas S cluster
      then reconcile_pdb literals S cluster
