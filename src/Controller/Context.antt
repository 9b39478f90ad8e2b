-- ===== src/Controller/Context.antt =====
-- `buildRenderContext` and `buildRadiusdConfig` of
-- internal/controller/radiuscluster_controller.go: from the custom resources to the renderer's input.
pub mod Originals
pub mod Restored
use freeradius_k8s_operator.Shared.{
  String, Bool, true, false, ◌&&◌, List, [], ◌∷◌, map, Option, none, some, if◌then◌else◌,
}
use freeradius_k8s_operator.Shared.Int.{ℤ, pos, is_zero}
use freeradius_k8s_operator.Api.Modules
use freeradius_k8s_operator.Api.Cluster
use freeradius_k8s_operator.Api.Resources
use freeradius_k8s_operator.Api.Objects.{KubeTypes, RadiusCluster, RadiusClient, RadiusPolicy}
use freeradius_k8s_operator.Renderer.Types.{
  SecretRef, SqlConfig, LdapConfig, EapTlsConfig, EapTtlsConfig, EapPeapConfig, EapConfig,
  RestStageConfig, RestConfig, RedisConfig, FilesConfig, ModuleConfig, RadiusdLogConfig,
  RadiusdSecurityConfig, RadiusdThreadPool, RadiusdConfig, ClusterSpec, ClientSpec, MatchLeaf,
  PolicyMatch, PolicyAction, PolicySpec, RenderContext,
}

-- A pointer that is not nil is copied to a new one.
abbrev pub copy : {A B : Type 0} → (A → B) → Option A → Option B
copy f none = none
copy f (some x) = some (f x)

unfoldable pub secret_ref : Modules.SecretRef → SecretRef
secret_ref r = record { name = r.name; key = r.key }

pub sql_config : Modules.SqlConfig → SqlConfig
sql_config m = record {
  dialect = m.dialect;
  server = m.server;
  port = m.port;
  database = m.database;
  login = m.login;
  password_ref = secret_ref m.password_ref;
}

pub ldap_config : Modules.LdapConfig → LdapConfig
ldap_config m = record {
  server = m.server;
  port = m.port;
  base_dn = m.base_dn;
  identity = m.identity;
  password_ref = secret_ref m.password_ref;
}

pub eap_tls : Modules.EapTlsConfig → EapTlsConfig
eap_tls t = record { cert_file = t.cert_file; key_file = t.key_file }

pub eap_ttls : Modules.EapTtlsConfig → EapTtlsConfig
eap_ttls t = record { default_eap_type = t.default_eap_type; virtual_server = t.virtual_server }

pub eap_peap : Modules.EapPeapConfig → EapPeapConfig
eap_peap t = record { default_eap_type = t.default_eap_type; virtual_server = t.virtual_server }

pub eap_config : Modules.EapConfig → EapConfig
eap_config m = record {
  default_eap_type = m.default_eap_type;
  tls = copy eap_tls m.tls;
  ttls = copy eap_ttls m.ttls;
  peap = copy eap_peap m.peap;
}

pub rest_stage : Modules.RestStageConfig → RestStageConfig
rest_stage m = record { uri = m.uri; method = m.method }

pub rest_config : Modules.RestConfig → RestConfig
rest_config m = record {
  connect_uri = m.connect_uri;
  auth = m.auth;
  password_ref = copy secret_ref m.password_ref;
  authorize = copy rest_stage m.authorize;
  authenticate = copy rest_stage m.authenticate;
  preacct = copy rest_stage m.preacct;
  accounting = copy rest_stage m.accounting;
  post_auth = copy rest_stage m.post_auth;
  pre_proxy = copy rest_stage m.pre_proxy;
  post_proxy = copy rest_stage m.post_proxy;
}

pub redis_config : Modules.RedisConfig → RedisConfig
redis_config m = record {
  server = m.server;
  port = m.port;
  database = m.database;
  password_ref = copy secret_ref m.password_ref;
}

pub files_config : Modules.FilesConfig → FilesConfig
files_config m = record { key = m.key; authorize = m.authorize; accounting = m.accounting }

-- The body of the loop over the modules.
pub module_config : Modules.ModuleConfig → ModuleConfig
module_config m = record {
  name = m.name;
  type = m.type;
  enabled = m.enabled;
  sql = copy sql_config m.sql;
  ldap = copy ldap_config m.ldap;
  eap = copy eap_config m.eap;
  rest = copy rest_config m.rest;
  redis = copy redis_config m.redis;
  files = copy files_config m.files;
  raw_config = m.raw_config;
}

-- The body of the loop over the clients.
unfoldable pub client_spec : RadiusClient → ClientSpec
unfolding secret_ref
client_spec c = record {
  name = c.meta.name;
  ip = c.spec.ip;
  secret_ref = secret_ref c.spec.secret_ref;
  nas_type = c.spec.nas_type;
  raw_config = c.spec.raw_config;
}

pub match_leaf : Resources.MatchLeaf → MatchLeaf
match_leaf m = record { attribute = m.attribute; operator = m.operator; value = m.value }

pub policy_match : Resources.PolicyMatch → PolicyMatch
policy_match m = record {
  all = map match_leaf m.all;
  any = map match_leaf m.any;
  none = map match_leaf m.none;
}

unfoldable pub policy_action : Resources.PolicyAction → PolicyAction
policy_action m = record {
  type = m.type;
  module_name = m.module_name;
  modules = m.modules;
  attribute = m.attribute;
  value = m.value;
}

-- The body of the loop over the policies.
unfoldable pub policy_spec : RadiusPolicy → PolicySpec
unfolding policy_action policy_match
policy_spec p = record {
  name = p.meta.name;
  stage = p.spec.stage;
  priority = p.spec.priority;
  match = copy policy_match p.spec.match;
  actions = map policy_action p.spec.actions;
  raw_config = p.spec.raw_config;
}

-- `*b`, false at nil.
abbrev pub deref : Option Bool → Bool
deref none = false
deref (some b) = b

log_config : Option Cluster.RadiusdLogConfig → RadiusdLogConfig
log_config none = record {
  destination = "";
  auth = false;
  auth_badpass = false;
  auth_goodpass = false;
}
log_config (some l) = record {
  destination = l.destination;
  auth = deref l.auth;
  auth_badpass = deref l.auth_badpass;
  auth_goodpass = deref l.auth_goodpass;
}

security_config : Option Cluster.RadiusdSecurityConfig → RadiusdSecurityConfig
security_config none = record { max_attributes = pos 0; reject_delay = pos 0 }
security_config (some s) = record {
  max_attributes = s.max_attributes;
  reject_delay = s.reject_delay;
}

thread_pool : Option Cluster.RadiusdThreadPool → RadiusdThreadPool
thread_pool none = record {
  start_servers = pos 0;
  max_servers = pos 0;
  min_spare_servers = pos 0;
  max_spare_servers = pos 0;
  max_requests_per_server = pos 0;
}
thread_pool (some t) = record {
  start_servers = t.start_servers;
  max_servers = t.max_servers;
  min_spare_servers = t.min_spare_servers;
  max_spare_servers = t.max_spare_servers;
  max_requests_per_server = t.max_requests_per_server;
}

pub build_radiusd_config : Option Cluster.RadiusdConfig → RadiusdConfig
build_radiusd_config none = record {
  log = log_config none;
  security = security_config none;
  thread_pool = thread_pool none;
  max_request_time = pos 0;
  max_requests = pos 0;
  raw_config = "";
}
build_radiusd_config (some r) = record {
  log = log_config r.log;
  security = security_config r.security;
  thread_pool = thread_pool r.thread_pool;
  max_request_time = r.max_request_time;
  max_requests = r.max_requests;
  raw_config = r.raw_config;
}

-- `CoAEnabled` of the cluster's specification.
unfoldable pub coa_enabled : Option Cluster.CoaConfig → Bool
coa_enabled none = false
coa_enabled (some c) = c.enabled

-- `CoAPort`, which stays 0 unless CoA is on.
unfoldable pub coa_port : Option Cluster.CoaConfig → ℤ
coa_port none = pos 0
coa_port (some c) = if c.enabled then (if is_zero c.port then pos 3799 else c.port) else pos 0

unfoldable pub build_render_context :
    {K : KubeTypes} → RadiusCluster K → List RadiusClient → List RadiusPolicy → RenderContext
build_render_context cluster clients policies = record {
  cluster = record {
    replicas = cluster.spec.replicas;
    image = cluster.spec.image;
    modules = map module_config cluster.spec.modules;
    coa_enabled = coa_enabled cluster.spec.coa;
    coa_port = coa_port cluster.spec.coa;
    radiusd = build_radiusd_config cluster.spec.radiusd;
  };
  clients = map client_spec clients;
  policies = map policy_spec policies;
}
