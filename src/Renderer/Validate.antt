-- ===== src/Renderer/Validate.antt =====
-- The validators of clients, modules and policies, from internal/renderer/sanitize.go.
pub mod Clients
pub mod Policies
pub mod Errors
use freeradius_k8s_operator.Shared.{
  String, Bool, ◌||◌, not, List, [], ◌∷◌, ◌++◌, Option, none, some, if◌then◌else◌, ◌==◌, is_empty,
  concat, Check, ok, err, ◌>>◌, map_err, each,
}
use freeradius_k8s_operator.Renderer.Types.{
  SqlConfig, LdapConfig, EapTlsConfig, EapTtlsConfig, EapPeapConfig, EapConfig, RestStageConfig,
  RestConfig, RedisConfig, FilesConfig, ModuleConfig, ClientSpec, MatchLeaf, PolicyMatch,
  PolicyAction, PolicySpec, Error, requires_modules, within,
}
use freeradius_k8s_operator.Renderer.Sanitize.{
  validate_identifier, validate_hostname, validate_ip_or_cidr, validate_dn, validate_file_path,
  validate_uri, validate_http_method, validate_quoted_string, validate_radius_attribute,
  validate_radius_operator, validate_radius_value, validate_radius_regex,
}

-- A pointer that may be nil: the check runs on what it points to.
abbrev pub for_some : {A : Type 0} → (A → Check Error) → Option A → Check Error
for_some f none = ok tt
for_some f (some x) = f x

-- An optional text: the check runs unless it is empty.
abbrev pub unless_empty : (String → Check Error) → String → Check Error
unless_empty f s = if is_empty s then ok tt else f s

unfoldable pub validate_client_spec : ClientSpec → Check Error
validate_client_spec c = if not (is_empty c.raw_config) then ok tt else do
  validate_identifier "client name" c.name
  validate_ip_or_cidr "client IP" c.ip
  unless_empty (validate_identifier "nastype") c.nas_type

unfoldable pub validate_sql_config : SqlConfig → Check Error
validate_sql_config cfg = do
  validate_identifier "SQL dialect" cfg.dialect
  validate_hostname "SQL server" cfg.server
  validate_quoted_string "SQL database" cfg.database
  validate_quoted_string "SQL login" cfg.login

pub validate_ldap_config : LdapConfig → Check Error
validate_ldap_config cfg = do
  validate_hostname "LDAP server" cfg.server
  validate_dn "LDAP baseDN" cfg.base_dn
  validate_dn "LDAP identity" cfg.identity

validate_eap_tls : EapTlsConfig → Check Error
validate_eap_tls tls = do
  unless_empty (validate_file_path "EAP TLS certFile") tls.cert_file
  unless_empty (validate_file_path "EAP TLS keyFile") tls.key_file

validate_eap_ttls : EapTtlsConfig → Check Error
validate_eap_ttls ttls = do
  unless_empty (validate_identifier "TTLS defaultEAPType") ttls.default_eap_type
  unless_empty (validate_identifier "TTLS virtualServer") ttls.virtual_server

validate_eap_peap : EapPeapConfig → Check Error
validate_eap_peap peap = do
  unless_empty (validate_identifier "PEAP defaultEAPType") peap.default_eap_type
  unless_empty (validate_identifier "PEAP virtualServer") peap.virtual_server

pub validate_eap_config : EapConfig → Check Error
unfolding validate_eap_tls validate_eap_ttls validate_eap_peap
validate_eap_config cfg = do
  validate_identifier "EAP defaultEAPType" cfg.default_eap_type
  for_some validate_eap_tls cfg.tls
  for_some validate_eap_ttls cfg.ttls
  for_some validate_eap_peap cfg.peap

validate_rest_stage : RestStageConfig → Check Error
validate_rest_stage s = do
  unless_empty (validate_quoted_string "REST stage URI") s.uri
  unless_empty (validate_http_method "REST stage method") s.method

pub validate_rest_config : RestConfig → Check Error
unfolding validate_rest_stage
validate_rest_config cfg = do
  validate_uri "REST connectURI" cfg.connect_uri
  unless_empty (validate_identifier "REST auth") cfg.auth
  each (for_some validate_rest_stage) (
      cfg.authorize ∷ cfg.authenticate ∷ cfg.preacct ∷ cfg.accounting ∷ cfg.post_auth
      ∷ cfg.pre_proxy ∷ cfg.post_proxy ∷ [])

pub validate_redis_config : RedisConfig → Check Error
validate_redis_config cfg = validate_hostname "Redis server" cfg.server

pub validate_files_config : FilesConfig → Check Error
validate_files_config cfg = unless_empty (validate_quoted_string "files key") cfg.key

-- The `switch` on the module's type.
unfoldable pub validate_module_type : ModuleConfig → Check Error
validate_module_type m =
    if m.type == "rlm_sql"
    then for_some validate_sql_config m.sql
    else if m.type == "rlm_ldap"
    then for_some validate_ldap_config m.ldap
    else if m.type == "rlm_eap"
    then for_some validate_eap_config m.eap
    else if m.type == "rlm_rest"
    then for_some validate_rest_config m.rest
    else if m.type == "rlm_redis"
    then for_some validate_redis_config m.redis
    else if m.type == "rlm_files"
    then for_some validate_files_config m.files
    else ok tt

unfoldable pub validate_module_config : ModuleConfig → Check Error
unfolding validate_module_type
validate_module_config m =
    if not (is_empty m.raw_config)
    then ok tt
    else do validate_identifier "module name" m.name; validate_module_type m

-- The modules of a `redundant` or `load-balance` action.
unfoldable pub validate_group : PolicyAction → Check Error
validate_group a = elim a.modules [
  | [] ↦ err (requires_modules a.type)
  | m ∷ ms ↦ each (validate_identifier (concat ("module in " ∷ a.type ∷ []))) (m ∷ ms)
]

unfoldable pub validate_policy_action : PolicyAction → Check Error
unfolding validate_group
validate_policy_action a =
    if a.type == "call"
    then validate_identifier "call module" a.module_name
    else if a.type == "set"
    then validate_radius_attribute "set attribute" a.attribute
      >> validate_radius_value "set value" a.value
    else if a.type == "redundant" || a.type == "load-balance"
    then validate_group a
    else ok tt

abbrev pub is_regex_operator : String → Bool
is_regex_operator op = op == "=~" || op == "!~"

unfoldable pub validate_match_leaf : MatchLeaf → Check Error
validate_match_leaf leaf = do
  validate_radius_attribute "match attribute" leaf.attribute
  validate_radius_operator "match operator" leaf.operator
  if is_regex_operator leaf.operator
      then validate_radius_regex "match value" leaf.value
      else validate_radius_value "match value" leaf.value

-- The leaves of `append(append(p.Match.All, p.Match.Any...), p.Match.None...)`.
abbrev pub leaves : PolicyMatch → List MatchLeaf
leaves m = (m.all ++ m.any) ++ m.none

unfoldable pub validate_policy_spec : PolicySpec → Check Error
validate_policy_spec p = if not (is_empty p.raw_config) then ok tt else do
  for_some (λ m. map_err (within "policy" p.name) (each validate_match_leaf (leaves m))) p.match
  each (λ a. map_err (within "policy" p.name) (validate_policy_action a)) p.actions
