-- ===== src/Renderer/Types.antt =====
-- The renderer's input, from internal/renderer/renderer.go. A pointer is an `Option`, an `int32` a
-- signed integer; `module_name` is the field `Module` of an action.
use freeradius_k8s_operator.Shared.{String, Bool, List, Option}
use freeradius_k8s_operator.Shared.Int.{ℤ}

pub record SecretRef : Type 0 where
  pub name : String
  pub key : String

pub record SqlConfig : Type 0 where
  pub dialect : String
  pub server : String
  pub port : ℤ
  pub database : String
  pub login : String
  pub password_ref : SecretRef

pub record LdapConfig : Type 0 where
  pub server : String
  pub port : ℤ
  pub base_dn : String
  pub identity : String
  pub password_ref : SecretRef

pub record EapTlsConfig : Type 0 where
  pub cert_file : String
  pub key_file : String

pub record EapTtlsConfig : Type 0 where
  pub default_eap_type : String
  pub virtual_server : String

pub record EapPeapConfig : Type 0 where
  pub default_eap_type : String
  pub virtual_server : String

pub record EapConfig : Type 0 where
  pub default_eap_type : String
  pub tls : Option EapTlsConfig
  pub ttls : Option EapTtlsConfig
  pub peap : Option EapPeapConfig

pub record RestStageConfig : Type 0 where
  pub uri : String
  pub method : String

pub record RestConfig : Type 0 where
  pub connect_uri : String
  pub auth : String
  pub password_ref : Option SecretRef
  pub authorize : Option RestStageConfig
  pub authenticate : Option RestStageConfig
  pub preacct : Option RestStageConfig
  pub accounting : Option RestStageConfig
  pub post_auth : Option RestStageConfig
  pub pre_proxy : Option RestStageConfig
  pub post_proxy : Option RestStageConfig

pub record RedisConfig : Type 0 where
  pub server : String
  pub port : ℤ
  pub database : ℤ
  pub password_ref : Option SecretRef

pub record FilesConfig : Type 0 where
  pub key : String
  pub authorize : String
  pub accounting : String

pub record ModuleConfig : Type 0 where
  pub name : String
  pub type : String
  pub enabled : Bool
  pub sql : Option SqlConfig
  pub ldap : Option LdapConfig
  pub eap : Option EapConfig
  pub rest : Option RestConfig
  pub redis : Option RedisConfig
  pub files : Option FilesConfig
  pub raw_config : String

pub record RadiusdLogConfig : Type 0 where
  pub destination : String
  pub auth : Bool
  pub auth_badpass : Bool
  pub auth_goodpass : Bool

pub record RadiusdSecurityConfig : Type 0 where
  pub max_attributes : ℤ
  pub reject_delay : ℤ

pub record RadiusdThreadPool : Type 0 where
  pub start_servers : ℤ
  pub max_servers : ℤ
  pub min_spare_servers : ℤ
  pub max_spare_servers : ℤ
  pub max_requests_per_server : ℤ

pub record RadiusdConfig : Type 0 where
  pub log : RadiusdLogConfig
  pub security : RadiusdSecurityConfig
  pub thread_pool : RadiusdThreadPool
  pub max_request_time : ℤ
  pub max_requests : ℤ
  pub raw_config : String

pub record ClusterSpec : Type 0 where
  pub replicas : ℤ
  pub image : String
  pub modules : List ModuleConfig
  pub coa_enabled : Bool
  pub coa_port : ℤ
  pub radiusd : RadiusdConfig

pub record ClientSpec : Type 0 where
  pub name : String
  pub ip : String
  pub secret_ref : SecretRef
  pub nas_type : String
  pub raw_config : String

pub record MatchLeaf : Type 0 where
  pub attribute : String
  pub operator : String
  pub value : String

pub record PolicyMatch : Type 0 where
  pub all : List MatchLeaf
  pub any : List MatchLeaf
  pub none : List MatchLeaf

pub record PolicyAction : Type 0 where
  pub type : String
  pub module_name : String
  pub modules : List String
  pub attribute : String
  pub value : String

pub record PolicySpec : Type 0 where
  pub name : String
  pub stage : String
  pub priority : ℤ
  pub match : Option PolicyMatch
  pub actions : List PolicyAction
  pub raw_config : String

pub record RenderContext : Type 0 where
  pub cluster : ClusterSpec
  pub clients : List ClientSpec
  pub policies : List PolicySpec

-- The errors that the package returns. The three typed ones are pointers to structs; the others
-- are made by `fmt.Errorf`: `within` and `rendering_module` wrap another error by `%w`, the first
-- with what it concerns and its name.
pub data Error : Type 0 where
  invalid_module_error : String → Error
  invalid_stage_error : String → Error
  invalid_action_error : String → Error
  invalid_value : String → String → String → Error
  requires_modules : String → Error
  missing_config : String → String → Error
  within : String → String → Error → Error
  rendering_module : String → String → Error → Error
