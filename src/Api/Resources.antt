-- ===== src/Api/Resources.antt =====
-- The specifications of clients and policies, from api/v1alpha1/radiusclient_types.go and
-- radiuspolicy_types.go.
use freeradius_k8s_operator.Shared.{String, List, Option}
use freeradius_k8s_operator.Shared.Int.{ℤ}
use freeradius_k8s_operator.Api.Modules.{SecretRef}

pub record RadiusClientSpec : Type 0 where
  pub cluster_ref : String
  pub ip : String
  pub secret_ref : SecretRef
  pub nas_type : String
  pub metadata : List (String × String)
  pub raw_config : String

pub record MatchLeaf : Type 0 where
  pub attribute : String
  pub operator : String
  pub value : String

pub record PolicyMatch : Type 0 where
  pub all : List MatchLeaf
  pub any : List MatchLeaf
  pub none : List MatchLeaf

pub record PolicyAction : Type 0 where
  pub type : String
  pub module_name : String
  pub modules : List String
  pub attribute : String
  pub value : String

pub record RadiusPolicySpec : Type 0 where
  pub cluster_ref : String
  pub stage : String
  pub priority : ℤ
  pub match : Option PolicyMatch
  pub actions : List PolicyAction
  pub raw_config : String
