-- ===== src/Api/Objects.antt =====
-- The custom resources, from api/v1alpha1/radiuscluster_types.go, radiusclient_types.go and
-- radiuspolicy_types.go.
use freeradius_k8s_operator.Shared.{String, List, Option}
use freeradius_k8s_operator.Shared.Int.{ℤ}
use freeradius_k8s_operator.Api.Modules.{ModuleConfig}
use freeradius_k8s_operator.Api.Cluster.{
  AutoscalingConfig, TlsConfig, RadiusdConfig, ServiceConfig, CoaConfig, ServicesConfig,
}
use freeradius_k8s_operator.Api.Resources.{RadiusClientSpec, RadiusPolicySpec}

-- The types of k8s.io/api whose values the operator only passes on.
pub record KubeTypes : Type 1 where
  pub ResourceRequirements : Type 0
  pub Affinity : Type 0
  pub TopologySpreadConstraint : Type 0
  pub Probe : Type 0
  pub IntOrString : Type 0

-- A condition of `metav1`, without the time of its last change.
pub record Condition : Type 0 where
  pub type : String
  pub status : String
  pub reason : String
  pub message : String

-- The part of `metav1.ObjectMeta` that the operator reads.
pub record ObjectMeta : Type 0 where
  pub name : String
  pub namespace : String

pub record RadiusClient : Type 0 where
  pub meta : ObjectMeta
  pub spec : RadiusClientSpec
  pub conditions : List Condition

pub record RadiusPolicy : Type 0 where
  pub meta : ObjectMeta
  pub spec : RadiusPolicySpec
  pub conditions : List Condition

pub record RadiusClusterStatus : Type 0 where
  pub ready_replicas : ℤ
  pub current_image : String
  pub pod_restarts : ℤ
  pub service_ip : String
  pub external_ips : List String
  pub conditions : List Condition

module _ (K : KubeTypes) where
  open K use {ResourceRequirements, Affinity, TopologySpreadConstraint, Probe, IntOrString}

  pub record ProbesConfig : Type 0 where
    pub liveness : Option Probe
    pub readiness : Option Probe

  pub record PdbConfig : Type 0 where
    pub min_available : Option IntOrString
    pub max_unavailable : Option IntOrString

  pub record RadiusClusterSpec : Type 0 where
    pub replicas : ℤ
    pub image : String
    pub resources : ResourceRequirements
    pub autoscaling : Option AutoscalingConfig
    pub tls : Option TlsConfig
    pub probes : Option ProbesConfig
    pub modules : List ModuleConfig
    pub pdb : Option PdbConfig
    pub affinity : Option Affinity
    pub topology_spread_constraints : List TopologySpreadConstraint
    pub service : Option ServiceConfig
    pub services : Option ServicesConfig
    pub coa : Option CoaConfig
    pub radiusd : Option RadiusdConfig
    pub init_resources : Option ResourceRequirements

  pub record RadiusCluster : Type 0 where
    pub meta : ObjectMeta
    pub spec : RadiusClusterSpec
    pub status : RadiusClusterStatus
