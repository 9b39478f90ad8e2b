-- ===== src/Controller/Steps/Services.antt =====
-- `reconcileOneService` of internal/controller/radiuscluster_controller.go.
use freeradius_k8s_operator.Shared.{
  String, List, [], ◌∷◌, Option, none, some, if◌then◌else◌, is_empty,
}
use freeradius_k8s_operator.Api.Cluster.{ServiceConfig}
use freeradius_k8s_operator.Api.Objects.{KubeTypes, RadiusCluster}
use freeradius_k8s_operator.Controller.Objects.Store.{ObjectKind, Store}
use freeradius_k8s_operator.Controller.Endpoints.{EndpointDef, endpoint_labels}
use freeradius_k8s_operator.Controller.Endpoints.Cleanup.{object_name}
use freeradius_k8s_operator.Controller.Objects.{ServiceSpec}
use freeradius_k8s_operator.Controller.Steps.Calls.{Step, owned}

-- The variable `svcType`.
unfoldable pub service_type : Option ServiceConfig → String
service_type none = "ClusterIP"
service_type (some c) = if is_empty c.type then "ClusterIP" else c.type

-- The fields that are set where they are configured; unset is empty.
abbrev pub balancer_ip : Option ServiceConfig → String
balancer_ip none = ""
balancer_ip (some c) = c.load_balancer_ip

abbrev pub traffic_policy : Option ServiceConfig → String
traffic_policy none = ""
traffic_policy (some c) = c.external_traffic_policy

-- The value that the closure gives to `svc.Spec`.
unfoldable pub service_spec : {K : KubeTypes} → RadiusCluster K → EndpointDef → ServiceSpec
unfolding service_type
service_spec cluster ep = record {
  type = service_type ep.svc_cfg;
  selector = endpoint_labels cluster.meta.name ep.role;
  ports = ep.ports;
  load_balancer_ip = balancer_ip ep.svc_cfg;
  external_traffic_policy = traffic_policy ep.svc_cfg;
}

unfoldable pub given_or_old :
    List (String × String) → List (String × String) → List (String × String)
given_or_old [] old = old
given_or_old (a ∷ given) old = a ∷ given

-- `svc.Annotations`, which stay as they are unless some are configured.
unfoldable pub service_annotations :
    Option ServiceConfig → List (String × String) → List (String × String)
unfolding given_or_old
service_annotations none old = old
service_annotations (some c) old = given_or_old c.annotations old

module _ {K : KubeTypes} {World : Type 0} (S : Store K World) where
  unfoldable pub reconcile_one_service : RadiusCluster K → EndpointDef → Step World
  unfolding service_spec service_annotations
  reconcile_one_service cluster ep w =
      S.create_or_update ObjectKind.service (object_name cluster ep.suffix)
        (owned S cluster λ svc. record svc {
          annotations = service_annotations ep.svc_cfg svc.annotations;
          content = some (service_spec cluster ep);
        })
        w
