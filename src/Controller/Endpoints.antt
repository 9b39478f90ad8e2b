-- ===== src/Controller/Endpoints.antt =====
-- `buildEndpoints`, the suffixes of `cleanupStaleResources`, `podLabels` and `endpointLabels` of
-- internal/controller/radiuscluster_controller.go, with internal/controller/constants.go. An `int`
-- that stands in an `intstr.IntOrString` is a signed integer, a label set a list of its entries.
pub mod Names
pub mod Cleanup
pub mod Ports
pub mod Labels
use freeradius_k8s_operator.Shared.{
  String, Bool, ◌≡◌, List, [], ◌∷◌, ◌++◌, Option, none, some, if◌then◌else◌, ◌==◌, is_empty,
}
use freeradius_k8s_operator.Shared.Int.{ℤ, pos, int_lt}
use freeradius_k8s_operator.Api.Cluster.{
  AutoscalingConfig, ServiceConfig, CoaConfig, ServiceEndpointConfig, ServicesConfig,
}
use freeradius_k8s_operator.Api.Objects.{KubeTypes, RadiusCluster}
use freeradius_k8s_operator.Controller.Context.{coa_enabled}

-- `corev1.ServicePort`
pub record ServicePort : Type 0 where
  pub name : String
  pub port : ℤ
  pub target_port : ℤ
  pub protocol : String

-- `corev1.ContainerPort`
pub record ContainerPort : Type 0 where
  pub name : String
  pub container_port : ℤ
  pub protocol : String

pub record EndpointDef : Type 0 where
  pub role : String
  pub suffix : String
  pub ports : List ServicePort
  pub c_ports : List ContainerPort
  pub replicas : ℤ
  pub autoscale : Option AutoscalingConfig
  pub svc_cfg : Option ServiceConfig

-- The constant of the same name.
abbrev pub deployment_suffix : String
deployment_suffix = "-freeradius"

abbrev pub service_port : String → ℤ → ServicePort
service_port n p = record { name = n; port = p; target_port = p; protocol = "UDP" }

abbrev pub container_port : String → ℤ → ContainerPort
container_port n p = record { name = n; container_port = p; protocol = "UDP" }

-- The local variable `coaPort`.
pub endpoint_coa_port : Option CoaConfig → ℤ
endpoint_coa_port none = pos 3799
endpoint_coa_port (some c) = if int_lt (pos 0) c.port then c.port else pos 3799

-- The single endpoint without `services`.
unfoldable pub unified_endpoint : {K : KubeTypes} → RadiusCluster K → EndpointDef
unified_endpoint cluster = record {
  role = "";
  suffix = deployment_suffix;
  ports =
      (service_port "auth" (pos 1812) ∷ service_port "acct" (pos 1813) ∷ [])
      ++ (if coa_enabled cluster.spec.coa then service_port "coa" port ∷ [] else []);
  c_ports =
      (container_port "auth" (pos 1812) ∷ container_port "acct" (pos 1813) ∷ [])
      ++ (if coa_enabled cluster.spec.coa then container_port "coa" port ∷ [] else []);
  replicas = cluster.spec.replicas;
  autoscale = cluster.spec.autoscaling;
  svc_cfg = cluster.spec.service;
}
  where
    port : ℤ
    port = endpoint_coa_port cluster.spec.coa

-- One endpoint of `services`, when its pointer is not nil.
abbrev pub split_endpoint : String → String → ℤ → Option ServiceEndpointConfig → List EndpointDef
split_endpoint role suffix port none = []
split_endpoint role suffix port (some s) =
    record {
      role = role;
      suffix = suffix;
      ports = service_port role port ∷ [];
      c_ports = container_port role port ∷ [];
      replicas = s.replicas;
      autoscale = s.autoscaling;
      svc_cfg = some s.service_config;
    }
    ∷ []

unfoldable pub split_endpoints : ℤ → ServicesConfig → List EndpointDef
split_endpoints port svcs =
    split_endpoint "auth" "-freeradius-auth" (pos 1812) svcs.auth
    ++ (split_endpoint "acct" "-freeradius-acct" (pos 1813) svcs.accounting
        ++ split_endpoint "coa" "-freeradius-coa" port svcs.coa)

-- The two halves of the function: without `services`, and with them.
unfoldable pub endpoints_of :
    {K : KubeTypes} → RadiusCluster K → Option ServicesConfig → List EndpointDef
unfolding unified_endpoint split_endpoints
endpoints_of cluster none = unified_endpoint cluster ∷ []
endpoints_of cluster (some svcs) = split_endpoints (endpoint_coa_port cluster.spec.coa) svcs

unfoldable pub build_endpoints : {K : KubeTypes} → RadiusCluster K → List EndpointDef
build_endpoints cluster = endpoints_of cluster cluster.spec.services

unfoldable pub stale_suffixes_of : Option ServicesConfig → List String
stale_suffixes_of none = "-freeradius-auth" ∷ "-freeradius-acct" ∷ "-freeradius-coa" ∷ []
stale_suffixes_of (some svcs) = deployment_suffix ∷ []

-- The variable `staleSuffixes` of `cleanupStaleResources`.
unfoldable pub stale_suffixes : {K : KubeTypes} → RadiusCluster K → List String
stale_suffixes cluster = stale_suffixes_of cluster.spec.services

unfoldable pub pod_labels : String → List (String × String)
pod_labels cluster_name =
    ("app.kubernetes.io/name", "freeradius")
    ∷ ("app.kubernetes.io/instance", cluster_name)
    ∷ ("app.kubernetes.io/managed-by", "freeradius-operator")
    ∷ []

unfoldable pub endpoint_labels : String → String → List (String × String)
unfolding pod_labels
endpoint_labels cluster_name role =
    if is_empty role
    then pod_labels cluster_name
    else ("radius.operator.io/role", role) ∷ pod_labels cluster_name
