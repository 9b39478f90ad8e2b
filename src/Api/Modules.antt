-- ===== src/Api/Modules.antt =====
-- The modules of a cluster, from api/v1alpha1/module_types.go and common_types.go.
use freeradius_k8s_operator.Shared.{String, Bool, Option}
use freeradius_k8s_operator.Shared.Int.{ℤ}

pub record SecretRef : Type 0 where
  pub name : String
  pub key : String

pub record SqlConfig : Type 0 where
  pub dialect : String
  pub server : String
  pub port : ℤ
  pub database : String
  pub login : String
  pub password_ref : SecretRef

pub record LdapConfig : Type 0 where
  pub server : String
  pub port : ℤ
  pub base_dn : String
  pub identity : String
  pub password_ref : SecretRef

pub record EapTlsConfig : Type 0 where
  pub cert_file : String
  pub key_file : String

pub record EapTtlsConfig : Type 0 where
  pub default_eap_type : String
  pub virtual_server : String

pub record EapPeapConfig : Type 0 where
  pub default_eap_type : String
  pub virtual_server : String

pub record EapConfig : Type 0 where
  pub default_eap_type : String
  pub tls : Option EapTlsConfig
  pub ttls : Option EapTtlsConfig
  pub peap : Option EapPeapConfig

pub record RestStageConfig : Type 0 where
  pub uri : String
  pub method : String

pub record RestConfig : Type 0 where
  pub connect_uri : String
  pub auth : String
  pub password_ref : Option SecretRef
  pub authorize : Option RestStageConfig
  pub authenticate : Option RestStageConfig
  pub preacct : Option RestStageConfig
  pub accounting : Option RestStageConfig
  pub post_auth : Option RestStageConfig
  pub pre_proxy : Option RestStageConfig
  pub post_proxy : Option RestStageConfig

pub record RedisConfig : Type 0 where
  pub server : String
  pub port : ℤ
  pub database : ℤ
  pub password_ref : Option SecretRef

pub record FilesConfig : Type 0 where
  pub key : String
  pub authorize : String
  pub accounting : String

pub record ModuleConfig : Type 0 where
  pub name : String
  pub type : String
  pub enabled : Bool
  pub sql : Option SqlConfig
  pub ldap : Option LdapConfig
  pub eap : Option EapConfig
  pub rest : Option RestConfig
  pub redis : Option RedisConfig
  pub files : Option FilesConfig
  pub raw_config : String
