-- ===== src/Controller/Steps/Autoscalers.antt =====
-- `reconcileHPAs` and `reconcileOneHPA` of internal/controller/radiuscluster_controller.go.
use freeradius_k8s_operator.Shared.{List, [], ◌∷◌, Option, none, some, if◌then◌else◌, append, ok}
use freeradius_k8s_operator.Api.Cluster.{AutoscalingConfig}
use freeradius_k8s_operator.Api.Objects.{KubeTypes, RadiusCluster}
use freeradius_k8s_operator.Controller.Objects.Store.{ObjectKind, Store}
use freeradius_k8s_operator.Controller.Endpoints.{EndpointDef, build_endpoints}
use freeradius_k8s_operator.Controller.Endpoints.Cleanup.{object_name}
use freeradius_k8s_operator.Controller.Objects.{HpaSpec}
use freeradius_k8s_operator.Controller.Steps.Calls.{Step, next_step, owned, delete_existing}

-- The value that the closure gives to `hpa.Spec`.
unfoldable pub hpa_spec :
    {K : KubeTypes} → RadiusCluster K → EndpointDef → AutoscalingConfig → HpaSpec
hpa_spec cluster ep autoscale = record {
  target = record {
    api_group = "apps/v1";
    kind = "Deployment";
    name = append cluster.meta.name ep.suffix;
  };
  min_replicas = autoscale.min_replicas;
  max_replicas = autoscale.max_replicas;
  average_utilization = autoscale.target_cpu_utilization_percentage;
}

module _ {K : KubeTypes} {World : Type 0} (S : Store K World) where
  unfoldable pub create_hpa : RadiusCluster K → EndpointDef → AutoscalingConfig → Step World
  unfolding hpa_spec
  create_hpa cluster ep autoscale w =
      S.create_or_update ObjectKind.autoscaler (object_name cluster ep.suffix)
        (owned S cluster λ hpa. record hpa { content = some (hpa_spec cluster ep autoscale) }) w

  unfoldable pub delete_hpa : RadiusCluster K → EndpointDef → Step World
  delete_hpa cluster ep w =
      delete_existing S ObjectKind.autoscaler (object_name cluster ep.suffix) w

  -- The two ways, by the endpoint's autoscaling.
  unfoldable pub hpa_on : RadiusCluster K → EndpointDef → Option AutoscalingConfig → Step World
  unfolding create_hpa delete_hpa
  hpa_on cluster ep none w = delete_hpa cluster ep w
  hpa_on cluster ep (some a) w =
      if a.enabled then create_hpa cluster ep a w else delete_hpa cluster ep w

  unfoldable pub reconcile_one_hpa : RadiusCluster K → EndpointDef → Step World
  unfolding hpa_on
  reconcile_one_hpa cluster ep w = hpa_on cluster ep ep.autoscale w

  -- The loop over the endpoints.
  unfoldable pub hpas_of : RadiusCluster K → List EndpointDef → Step World
  unfolding reconcile_one_hpa
  hpas_of cluster [] w = (w, ok tt)
  hpas_of cluster (ep ∷ eps) w = next_step (reconcile_one_hpa cluster ep w) (hpas_of cluster eps)

  unfoldable pub reconcile_hpas : RadiusCluster K → Step World
  unfolding hpas_of
  reconcile_hpas cluster w = hpas_of cluster (build_endpoints cluster) w
