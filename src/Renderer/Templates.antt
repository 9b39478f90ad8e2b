-- ===== src/Renderer/Templates.antt =====
-- internal/renderer/templates.go, and the templates that it parses (internal/renderer/templates),
-- each as the lines that it prints.
use freeradius_k8s_operator.Shared.{
  ℕ, String, code, Bool, false, ◌||◌, List, [], ◌∷◌, ◌++◌, map, Option, none, some, nat_eq,
  if◌then◌else◌, ◌==◌, is_empty, concat, unlines, ◌⊎◌, ◌≡◌, inl, inr, Bool-cases,
}
use freeradius_k8s_operator.Shared.Int.{format_int}
use freeradius_k8s_operator.Renderer.Types.{
  SecretRef, SqlConfig, LdapConfig, EapTlsConfig, EapConfig, RestStageConfig, RestConfig,
  RedisConfig, FilesConfig, PolicyAction,
}

unfoldable pub secret_file_path : SecretRef → String
secret_file_path ref =
    concat ("${file:/etc/freeradius/secrets/" ∷ ref.name ∷ "/" ∷ ref.key ∷ "}" ∷ [])

pub secret_file_path_ptr : Option SecretRef → String
secret_file_path_ptr none = ""
secret_file_path_ptr (some ref) = secret_file_path ref

-- `strings.Contains(s, c)` for a single character.
pub contains_char : ℕ → String → Bool
contains_char n String.[] = false
contains_char n (String.◌∷◌ c s) = nat_eq n (code c) || contains_char n s

pub ipaddr_directive : String → String
unfolding contains_char
ipaddr_directive ip = if contains_char b':' ip then "ipv6addr" else "ipaddr"

pub ipaddr_directive_cases :
    (ip : String) → (ipaddr_directive ip ≡ "ipv6addr") ⊎ (ipaddr_directive ip ≡ "ipaddr")
unfolding ipaddr_directive
ipaddr_directive_cases ip = elim (Bool-cases (contains_char b':' ip)) [
  | inl e ↦ inl (rw e)
  | inr e ↦ inr (rw e)
]

pub yesno : Bool → String
yesno v = if v then "yes" else "no"

pub render_group_action : String → List String → String → String
render_group_action keyword modules indent = unlines (
    concat (indent ∷ keyword ∷ " {" ∷ []) ∷ map (λ m. concat (indent ∷ "    " ∷ m ∷ [])) modules
    ++ concat (indent ∷ "}" ∷ []) ∷ [])

pub render_action_str : PolicyAction → String → String
unfolding render_group_action
render_action_str action indent =
    if action.type == "set"
    then unlines (
        concat (indent ∷ "update reply {" ∷ [])
        ∷ concat (indent ∷ "    " ∷ action.attribute ∷ " := \"" ∷ action.value ∷ "\"" ∷ [])
        ∷ concat (indent ∷ "}" ∷ [])
        ∷ [])
    else if action.type == "call"
    then concat (indent ∷ action.module_name ∷ "\n" ∷ [])
    else if action.type == "reject"
    then concat (indent ∷ "reject\n" ∷ [])
    else if action.type == "accept"
    then concat (indent ∷ "ok\n" ∷ [])
    else if action.type == "redundant" || action.type == "load-balance"
    then render_group_action action.type action.modules indent
    else ""

-- `{{ if p }} … {{ end }}` at a pointer.
abbrev pub when_some : {A : Type 0} → (A → List String) → Option A → List String
when_some f none = []
when_some f (some x) = f x

-- `{{ if s }} … {{ end }}` at a text.
abbrev pub when_set : String → List String → List String
when_set s ls = if is_empty s then [] else ls

-- mods-enabled/sql.tmpl
pub sql_lines : String → SqlConfig → List String
unfolding secret_file_path
sql_lines name cfg =
    concat ("sql " ∷ name ∷ " {" ∷ [])
    ∷ concat ("    driver = \"rlm_sql_" ∷ cfg.dialect ∷ "\"" ∷ [])
    ∷ concat ("    dialect = \"" ∷ cfg.dialect ∷ "\"" ∷ [])
    ∷ concat ("    server = \"" ∷ cfg.server ∷ "\"" ∷ [])
    ∷ concat ("    port = " ∷ format_int cfg.port ∷ [])
    ∷ concat ("    database = \"" ∷ cfg.database ∷ "\"" ∷ [])
    ∷ concat ("    login = \"" ∷ cfg.login ∷ "\"" ∷ [])
    ∷ concat ("    password = \"" ∷ secret_file_path cfg.password_ref ∷ "\"" ∷ [])
    ∷ "}"
    ∷ []

-- mods-enabled/ldap.tmpl
pub ldap_lines : String → LdapConfig → List String
unfolding secret_file_path
ldap_lines name cfg =
    concat ("ldap " ∷ name ∷ " {" ∷ [])
    ∷ concat ("    server = '" ∷ cfg.server ∷ "'" ∷ [])
    ∷ concat ("    port = " ∷ format_int cfg.port ∷ [])
    ∷ concat ("    base_dn = '" ∷ cfg.base_dn ∷ "'" ∷ [])
    ∷ concat ("    identity = '" ∷ cfg.identity ∷ "'" ∷ [])
    ∷ concat ("    password = " ∷ secret_file_path cfg.password_ref ∷ [])
    ∷ "}"
    ∷ []

eap_tls_lines : EapTlsConfig → List String
eap_tls_lines tls =
    "    tls {"
    ∷ concat ("        certfile = " ∷ tls.cert_file ∷ [])
    ∷ concat ("        keyfile = " ∷ tls.key_file ∷ [])
    ∷ "    }"
    ∷ []

-- The blocks `ttls` and `peap`.
eap_tunnel_lines : String → String → String → List String
eap_tunnel_lines keyword default_eap_type virtual_server =
    concat ("    " ∷ keyword ∷ " {" ∷ [])
      ∷ concat ("        default_eap_type = " ∷ default_eap_type ∷ [])
      ∷ when_set virtual_server (concat ("        virtual_server = " ∷ virtual_server ∷ []) ∷ [])
    ++ "    }" ∷ []

-- mods-enabled/eap.tmpl
pub eap_lines : String → EapConfig → List String
unfolding eap_tls_lines eap_tunnel_lines
eap_lines name cfg =
    concat ("eap " ∷ name ∷ " {" ∷ [])
      ∷ concat ("    default_eap_type = " ∷ cfg.default_eap_type ∷ [])
      ∷ when_some eap_tls_lines cfg.tls
    ++ (when_some (λ t. eap_tunnel_lines "ttls" t.default_eap_type t.virtual_server) cfg.ttls
        ++ (when_some (λ p. eap_tunnel_lines "peap" p.default_eap_type p.virtual_server) cfg.peap
            ++ "}" ∷ []))

rest_stage_lines : String → RestStageConfig → List String
rest_stage_lines keyword s =
    concat ("    " ∷ keyword ∷ " {" ∷ [])
    ∷ concat ("        uri = \"" ∷ s.uri ∷ "\"" ∷ [])
    ∷ concat ("        method = \"" ∷ s.method ∷ "\"" ∷ [])
    ∷ "    }"
    ∷ []

-- mods-enabled/rest.tmpl
pub rest_lines : String → RestConfig → List String
unfolding rest_stage_lines secret_file_path_ptr
rest_lines name cfg =
    concat ("rest " ∷ name ∷ " {" ∷ [])
      ∷ concat ("    connect_uri = \"" ∷ cfg.connect_uri ∷ "\"" ∷ [])
      ∷ when_set cfg.auth (concat ("    auth = " ∷ cfg.auth ∷ []) ∷ [])
    ++ (when_some
          (λ r. concat ("    password = \"" ∷ secret_file_path_ptr (some r) ∷ "\"" ∷ []) ∷ [])
          cfg.password_ref
        ++ (when_some (rest_stage_lines "authorize") cfg.authorize
            ++ (when_some (rest_stage_lines "authenticate") cfg.authenticate
                ++ (when_some (rest_stage_lines "preacct") cfg.preacct
                    ++ (when_some (rest_stage_lines "accounting") cfg.accounting
                        ++ (when_some (rest_stage_lines "post-auth") cfg.post_auth
                            ++ (when_some (rest_stage_lines "pre-proxy") cfg.pre_proxy
                                ++ (when_some (rest_stage_lines "post-proxy") cfg.post_proxy
                                    ++ "}" ∷ []))))))))

-- mods-enabled/redis.tmpl
pub redis_lines : String → RedisConfig → List String
unfolding secret_file_path_ptr
redis_lines name cfg =
    concat ("redis " ∷ name ∷ " {" ∷ [])
      ∷ concat ("    server = " ∷ cfg.server ∷ [])
      ∷ concat ("    port = " ∷ format_int cfg.port ∷ [])
      ∷ when_some (λ r. concat ("    password = " ∷ secret_file_path_ptr (some r) ∷ []) ∷ [])
          cfg.password_ref
    ++ "}" ∷ []

-- mods-enabled/files.tmpl
pub files_lines : String → FilesConfig → List String
files_lines name cfg =
    concat ("files " ∷ name ∷ " {" ∷ [])
      ∷ "    moddir = ${modconfdir}/${.:instance}"
      ∷ when_set cfg.key (concat ("    key = \"" ∷ cfg.key ∷ "\"" ∷ []) ∷ [])
    ++ "    filename = ${moddir}/authorize" ∷ "    acctusersfile = ${moddir}/accounting" ∷ "}" ∷ []
