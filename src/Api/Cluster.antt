-- ===== src/Api/Cluster.antt =====
-- The cluster's configuration, from api/v1alpha1/cluster_config_types.go and service_types.go.
use freeradius_k8s_operator.Shared.{String, Bool, List, Option}
use freeradius_k8s_operator.Shared.Int.{ℤ}
use freeradius_k8s_operator.Api.Modules.{SecretRef}

pub record AutoscalingConfig : Type 0 where
  pub enabled : Bool
  pub min_replicas : ℤ
  pub max_replicas : ℤ
  pub target_cpu_utilization_percentage : ℤ

pub record TlsConfig : Type 0 where
  pub enabled : Bool
  pub secret_ref : SecretRef

pub record RadiusdLogConfig : Type 0 where
  pub destination : String
  pub auth : Option Bool
  pub auth_badpass : Option Bool
  pub auth_goodpass : Option Bool

pub record RadiusdSecurityConfig : Type 0 where
  pub max_attributes : ℤ
  pub reject_delay : ℤ

pub record RadiusdThreadPool : Type 0 where
  pub start_servers : ℤ
  pub max_servers : ℤ
  pub min_spare_servers : ℤ
  pub max_spare_servers : ℤ
  pub max_requests_per_server : ℤ

pub record RadiusdConfig : Type 0 where
  pub log : Option RadiusdLogConfig
  pub security : Option RadiusdSecurityConfig
  pub thread_pool : Option RadiusdThreadPool
  pub max_request_time : ℤ
  pub max_requests : ℤ
  pub raw_config : String

pub record ServiceConfig : Type 0 where
  pub type : String
  pub load_balancer_ip : String
  pub external_traffic_policy : String
  pub annotations : List (String × String)

pub record CoaConfig : Type 0 where
  pub enabled : Bool
  pub port : ℤ

pub record ServiceEndpointConfig : Type 0 where
  pub service_config : ServiceConfig
  pub replicas : ℤ
  pub autoscaling : Option AutoscalingConfig

pub record ServicesConfig : Type 0 where
  pub auth : Option ServiceEndpointConfig
  pub accounting : Option ServiceEndpointConfig
  pub coa : Option ServiceEndpointConfig
