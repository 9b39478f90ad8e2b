-- ===== src/Controller/Context/Originals.antt =====
-- The way back from the renderer's modules, matches and actions to those of the resources.
use freeradius_k8s_operator.Shared.{◌≡◌, refl, ap, List, [], ◌∷◌, map, Option, none, some}
use freeradius_k8s_operator.Api.Modules
use freeradius_k8s_operator.Api.Resources
use freeradius_k8s_operator.Renderer.Types.{
  SecretRef, SqlConfig, LdapConfig, EapTlsConfig, EapTtlsConfig, EapPeapConfig, EapConfig,
  RestStageConfig, RestConfig, RedisConfig, FilesConfig, ModuleConfig, MatchLeaf, PolicyMatch,
  PolicyAction,
}
use freeradius_k8s_operator.Controller.Context.{
  copy, secret_ref, sql_config, ldap_config, eap_tls, eap_ttls, eap_peap, eap_config, rest_stage,
  rest_config, redis_config, files_config, module_config, match_leaf, policy_match, policy_action,
}

pub original_ref : SecretRef → Modules.SecretRef
original_ref m = record { name = m.name; key = m.key }

original_sql : SqlConfig → Modules.SqlConfig
original_sql m = record {
  dialect = m.dialect;
  server = m.server;
  port = m.port;
  database = m.database;
  login = m.login;
  password_ref = original_ref m.password_ref;
}

original_ldap : LdapConfig → Modules.LdapConfig
original_ldap m = record {
  server = m.server;
  port = m.port;
  base_dn = m.base_dn;
  identity = m.identity;
  password_ref = original_ref m.password_ref;
}

original_tls : EapTlsConfig → Modules.EapTlsConfig
original_tls t = record { cert_file = t.cert_file; key_file = t.key_file }

original_ttls : EapTtlsConfig → Modules.EapTtlsConfig
original_ttls t = record {
  default_eap_type = t.default_eap_type;
  virtual_server = t.virtual_server;
}

original_peap : EapPeapConfig → Modules.EapPeapConfig
original_peap t = record {
  default_eap_type = t.default_eap_type;
  virtual_server = t.virtual_server;
}

original_eap : EapConfig → Modules.EapConfig
original_eap m = record {
  default_eap_type = m.default_eap_type;
  tls = copy original_tls m.tls;
  ttls = copy original_ttls m.ttls;
  peap = copy original_peap m.peap;
}

original_stage : RestStageConfig → Modules.RestStageConfig
original_stage m = record { uri = m.uri; method = m.method }

original_rest : RestConfig → Modules.RestConfig
original_rest m = record {
  connect_uri = m.connect_uri;
  auth = m.auth;
  password_ref = copy original_ref m.password_ref;
  authorize = copy original_stage m.authorize;
  authenticate = copy original_stage m.authenticate;
  preacct = copy original_stage m.preacct;
  accounting = copy original_stage m.accounting;
  post_auth = copy original_stage m.post_auth;
  pre_proxy = copy original_stage m.pre_proxy;
  post_proxy = copy original_stage m.post_proxy;
}

original_redis : RedisConfig → Modules.RedisConfig
original_redis m = record {
  server = m.server;
  port = m.port;
  database = m.database;
  password_ref = copy original_ref m.password_ref;
}

original_files : FilesConfig → Modules.FilesConfig
original_files m = record { key = m.key; authorize = m.authorize; accounting = m.accounting }

pub original_module : ModuleConfig → Modules.ModuleConfig
original_module m = record {
  name = m.name;
  type = m.type;
  enabled = m.enabled;
  sql = copy original_sql m.sql;
  ldap = copy original_ldap m.ldap;
  eap = copy original_eap m.eap;
  rest = copy original_rest m.rest;
  redis = copy original_redis m.redis;
  files = copy original_files m.files;
  raw_config = m.raw_config;
}

original_leaf : MatchLeaf → Resources.MatchLeaf
original_leaf m = record { attribute = m.attribute; operator = m.operator; value = m.value }

pub original_match : PolicyMatch → Resources.PolicyMatch
original_match m = record {
  all = map original_leaf m.all;
  any = map original_leaf m.any;
  none = map original_leaf m.none;
}

pub original_action : PolicyAction → Resources.PolicyAction
original_action m = record {
  type = m.type;
  module_name = m.module_name;
  modules = m.modules;
  attribute = m.attribute;
  value = m.value;
}

pub copy-copy :
    {A B : Type 0} (f : A → B) (g : B → A)
    → ((a : A) → g (f a) ≡ a)
    → (o : Option A) → copy g (copy f o) ≡ o
copy-copy f g h none = refl
copy-copy f g h (some a) = ap some (h a)

pub map-map :
    {A B : Type 0} (f : A → B) (g : B → A)
    → ((a : A) → g (f a) ≡ a)
    → (xs : List A) → map g (map f xs) ≡ xs
map-map f g h [] = refl
map-map f g h (x ∷ xs) = λ i. h x i ∷ map-map f g h xs i

pub ref_back : (r : Modules.SecretRef) → original_ref (secret_ref r) ≡ r
unfolding original_ref secret_ref
ref_back r = refl

sql_back : (m : Modules.SqlConfig) → original_sql (sql_config m) ≡ m
unfolding original_sql sql_config original_ref secret_ref
sql_back m = refl

ldap_back : (m : Modules.LdapConfig) → original_ldap (ldap_config m) ≡ m
unfolding original_ldap ldap_config original_ref secret_ref
ldap_back m = refl

tls_back : (t : Modules.EapTlsConfig) → original_tls (eap_tls t) ≡ t
unfolding original_tls eap_tls
tls_back t = refl

ttls_back : (t : Modules.EapTtlsConfig) → original_ttls (eap_ttls t) ≡ t
unfolding original_ttls eap_ttls
ttls_back t = refl

peap_back : (t : Modules.EapPeapConfig) → original_peap (eap_peap t) ≡ t
unfolding original_peap eap_peap
peap_back t = refl

eap_back : (m : Modules.EapConfig) → original_eap (eap_config m) ≡ m
unfolding original_eap eap_config
eap_back m = λ i. record {
  default_eap_type = m.default_eap_type;
  tls = copy-copy eap_tls original_tls tls_back m.tls i;
  ttls = copy-copy eap_ttls original_ttls ttls_back m.ttls i;
  peap = copy-copy eap_peap original_peap peap_back m.peap i;
}

stage_back : (m : Modules.RestStageConfig) → original_stage (rest_stage m) ≡ m
unfolding original_stage rest_stage
stage_back m = refl

rest_back : (m : Modules.RestConfig) → original_rest (rest_config m) ≡ m
unfolding original_rest rest_config
rest_back m = λ i. record {
  connect_uri = m.connect_uri;
  auth = m.auth;
  password_ref = copy-copy secret_ref original_ref ref_back m.password_ref i;
  authorize = copy-copy rest_stage original_stage stage_back m.authorize i;
  authenticate = copy-copy rest_stage original_stage stage_back m.authenticate i;
  preacct = copy-copy rest_stage original_stage stage_back m.preacct i;
  accounting = copy-copy rest_stage original_stage stage_back m.accounting i;
  post_auth = copy-copy rest_stage original_stage stage_back m.post_auth i;
  pre_proxy = copy-copy rest_stage original_stage stage_back m.pre_proxy i;
  post_proxy = copy-copy rest_stage original_stage stage_back m.post_proxy i;
}

redis_back : (m : Modules.RedisConfig) → original_redis (redis_config m) ≡ m
unfolding original_redis redis_config
redis_back m = λ i. record {
  server = m.server;
  port = m.port;
  database = m.database;
  password_ref = copy-copy secret_ref original_ref ref_back m.password_ref i;
}

files_back : (m : Modules.FilesConfig) → original_files (files_config m) ≡ m
unfolding original_files files_config
files_back m = refl

pub module_back : (m : Modules.ModuleConfig) → original_module (module_config m) ≡ m
unfolding original_module module_config
module_back m = λ i. record {
  name = m.name;
  type = m.type;
  enabled = m.enabled;
  sql = copy-copy sql_config original_sql sql_back m.sql i;
  ldap = copy-copy ldap_config original_ldap ldap_back m.ldap i;
  eap = copy-copy eap_config original_eap eap_back m.eap i;
  rest = copy-copy rest_config original_rest rest_back m.rest i;
  redis = copy-copy redis_config original_redis redis_back m.redis i;
  files = copy-copy files_config original_files files_back m.files i;
  raw_config = m.raw_config;
}

leaf_back : (m : Resources.MatchLeaf) → original_leaf (match_leaf m) ≡ m
unfolding original_leaf match_leaf
leaf_back m = refl

pub match_back : (m : Resources.PolicyMatch) → original_match (policy_match m) ≡ m
unfolding original_match policy_match
match_back m = λ i. record {
  all = map-map match_leaf original_leaf leaf_back m.all i;
  any = map-map match_leaf original_leaf leaf_back m.any i;
  none = map-map match_leaf original_leaf leaf_back m.none i;
}

pub action_back : (a : Resources.PolicyAction) → original_action (policy_action a) ≡ a
unfolding original_action policy_action
action_back a = refl
