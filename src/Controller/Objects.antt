-- ===== src/Controller/Objects.antt =====
-- The objects that internal/controller/radiuscluster_controller.go builds: the parts of the types of
-- k8s.io/api that it sets, a label set as a list of its entries, and what it calls to store them.
pub mod Store
use freeradius_k8s_operator.Shared.{ℕ, String, Bool, List, Option}
use freeradius_k8s_operator.Shared.Int.{ℤ}
use freeradius_k8s_operator.Api.Objects.{KubeTypes}
use freeradius_k8s_operator.Renderer.Files.{ConfigFiles}
use freeradius_k8s_operator.Controller.Endpoints.{ServicePort, ContainerPort}

-- The values of Kubernetes's own types that the code writes out.
pub record Literals (K : KubeTypes) : Type 0 where
  -- A probe that runs a command, with its initial delay and its period in seconds.
  pub exec_probe : List String → ℕ → ℕ → K.Probe
  -- A preference, with its weight, against nodes that run pods with the labels, by topology key.
  pub anti_affinity : ℕ → List (String × String) → String → K.Affinity
  -- The requests and the limits, by resource.
  pub requirements : List (String × String) → List (String × String) → K.ResourceRequirements
  -- `intstr.FromInt`
  pub from_int : ℤ → K.IntOrString

pub data VolumeSource : Type 0 where
  config_map : String → VolumeSource
  empty_dir : VolumeSource
  secret : String → ℕ → VolumeSource

pub record Volume : Type 0 where
  pub name : String
  pub source : VolumeSource

pub record VolumeMount : Type 0 where
  pub name : String
  pub mount_path : String
  pub read_only : Bool

pub record SecurityContext : Type 0 where
  pub run_as_user : Option ℕ
  pub run_as_non_root : Option Bool
  pub allow_privilege_escalation : Option Bool
  pub drop : List String

-- A reference to an object by its API group, kind and name.
pub record ObjectReference : Type 0 where
  pub api_group : String
  pub kind : String
  pub name : String

pub record Subject : Type 0 where
  pub kind : String
  pub name : String
  pub namespace : String

pub record PolicyRule : Type 0 where
  pub api_groups : List String
  pub resources : List String
  pub verbs : List String

pub record ServiceSpec : Type 0 where
  pub type : String
  pub selector : List (String × String)
  pub ports : List ServicePort
  pub load_balancer_ip : String
  pub external_traffic_policy : String

-- `HorizontalPodAutoscalerSpec`, with one metric: the mean use of the CPU.
pub record HpaSpec : Type 0 where
  pub target : ObjectReference
  pub min_replicas : ℤ
  pub max_replicas : ℤ
  pub average_utilization : ℤ

pub record RoleBinding : Type 0 where
  pub role_ref : Option ObjectReference
  pub subjects : List Subject

module _ (K : KubeTypes) where
  open K use {ResourceRequirements, Affinity, TopologySpreadConstraint, Probe, IntOrString}

  pub record Container : Type 0 where
    pub name : String
    pub image : String
    pub image_pull_policy : String
    pub command : List String
    pub ports : List ContainerPort
    pub volume_mounts : List VolumeMount
    pub security_context : SecurityContext
    pub resources : ResourceRequirements
    pub liveness_probe : Option Probe
    pub readiness_probe : Option Probe

  pub record PodSpec : Type 0 where
    pub run_as_user : ℕ
    pub run_as_group : ℕ
    pub fs_group : ℕ
    pub affinity : Option Affinity
    pub topology_spread_constraints : List TopologySpreadConstraint
    pub service_account_name : String
    pub init_containers : List Container
    pub containers : List Container
    pub volumes : List Volume

  -- The strategy is a rolling update.
  pub record DeploymentSpec : Type 0 where
    pub replicas : Option ℤ
    pub selector : List (String × String)
    pub max_unavailable : IntOrString
    pub max_surge : IntOrString
    pub labels : List (String × String)
    pub annotations : List (String × String)
    pub pod : PodSpec

  pub record PdbSpec : Type 0 where
    pub selector : List (String × String)
    pub min_available : Option IntOrString
    pub max_unavailable : Option IntOrString
