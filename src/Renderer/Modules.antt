-- ===== src/Renderer/Modules.antt =====
-- internal/renderer/modules.go.
pub mod Laws
pub mod Lookup
use freeradius_k8s_operator.Shared.{
  String, code, Bool, ◌&&◌, not, List, [], ◌∷◌, Option, none, some, nat_eq, if◌then◌else◌, ◌==◌,
  is_empty, is_in, concat, unlines, ok, err, Result, ◌>>=◌, map_err,
}
use freeradius_k8s_operator.Renderer.Types.{
  ModuleConfig, FilesConfig, Error, invalid_module_error, missing_config, rendering_module,
}
use freeradius_k8s_operator.Renderer.Files.{ConfigFiles, assign}
use freeradius_k8s_operator.Renderer.Templates.{
  sql_lines, ldap_lines, eap_lines, rest_lines, redis_lines, files_lines,
}

unfoldable pub known_module_types : List String
known_module_types =
    "rlm_sql" ∷ "rlm_ldap" ∷ "rlm_eap" ∷ "rlm_rest" ∷ "rlm_redis" ∷ "rlm_files" ∷ "rlm_pap"
    ∷ "rlm_chap" ∷ "rlm_mschap" ∷ "rlm_unix" ∷ "rlm_pam" ∷ "rlm_python" ∷ "rlm_perl" ∷ "rlm_cache"
    ∷ "rlm_attr_filter" ∷ "rlm_expr" ∷ "rlm_detail" ∷ "rlm_linelog" ∷ []

-- `strings.TrimPrefix`: the text as it is, if the prefix does not begin it.
strip : String → String → String → String
strip whole String.[] s = s
strip whole (String.◌∷◌ p ps) String.[] = whole
strip whole (String.◌∷◌ p ps) (String.◌∷◌ c s) =
    if nat_eq (code p) (code c) then strip whole ps s else whole

pub trim_prefix : String → String → String
trim_prefix s prefix = strip s prefix s

-- The type has a template: its configuration must be there.
unfoldable pub execute_template :
    {A : Type 0} → ModuleConfig → (String → A → List String) → Option A → Result Error String
execute_template m lines none = err (missing_config m.type m.name)
execute_template m lines (some cfg) = ok (unlines (lines m.name cfg))

unfoldable pub render_module : ModuleConfig → Result Error String
render_module m =
    if not (is_empty m.raw_config)
    then ok m.raw_config
    else if m.type == "rlm_sql"
    then execute_template m sql_lines m.sql
    else if m.type == "rlm_ldap"
    then execute_template m ldap_lines m.ldap
    else if m.type == "rlm_eap"
    then execute_template m eap_lines m.eap
    else if m.type == "rlm_rest"
    then execute_template m rest_lines m.rest
    else if m.type == "rlm_redis"
    then execute_template m redis_lines m.redis
    else if m.type == "rlm_files"
    then execute_template m files_lines m.files
    else ok (concat (trim_prefix m.type "rlm_" ∷ " " ∷ m.name ∷ " {\n}\n" ∷ []))

pub module_file : String → String
module_file name = concat ("mods-enabled/" ∷ name ∷ [])

pub data_file : String → String → String
data_file name suffix = concat ("mods-config/" ∷ name ∷ "/" ∷ suffix ∷ [])

-- A data file of the files module, unless its contents are empty.
emit_data : String → String → String → ConfigFiles → ConfigFiles
emit_data name suffix contents files =
    if not (is_empty contents) then assign (data_file name suffix) contents files else files

pub emit_data_files : ModuleConfig → ConfigFiles → ConfigFiles
emit_data_files m files = elim m.files [
  | none ↦ files
  | some cfg ↦
      if m.type == "rlm_files"
      then emit_data m.name "accounting" cfg.accounting
          (emit_data m.name "authorize" cfg.authorize files)
      else files
]

-- One round of the loop.
unfoldable pub add_module : ConfigFiles → ModuleConfig → Result Error ConfigFiles
add_module files m =
    if not m.enabled
    then ok files
    else if is_empty m.raw_config && not (is_in m.type known_module_types)
    then err (invalid_module_error m.type)
    else do
      content ← map_err (rendering_module m.name m.type) (render_module m)
      ok (emit_data_files m (assign (module_file m.name) content files))

unfoldable pub add_modules : ConfigFiles → List ModuleConfig → Result Error ConfigFiles
add_modules files [] = ok files
add_modules files (m ∷ ms) = do files' ← add_module files m; add_modules files' ms

unfoldable pub render_modules : List ModuleConfig → Result Error ConfigFiles
render_modules modules = add_modules [] modules
