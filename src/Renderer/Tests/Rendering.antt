-- ===== src/Renderer/Tests/Rendering.antt =====
-- The theorems on a whole rendering, at the test data.
use freeradius_k8s_operator.Shared.{
  String, ◌≡◌, refl, true, [], ◌∷◌, some, All, arith, eq_iff, ok, >>-of_ok,
}
use freeradius_k8s_operator.Regexp.{up_to, literal, nullable, derivative, match_string}
use freeradius_k8s_operator.Renderer.Sanitize.{
  any_text, safe_identifier_re, safe_hostname_re, safe_ip_or_cidr_re, safe_radius_attribute_re,
  safe_radius_operator_re, safe_radius_value_re, safe_radius_regex_re, safe_quoted_string_re,
  match_or_err, validate_identifier, validate_hostname, validate_ip_or_cidr, validate_quoted_string,
  validate_radius_attribute, validate_radius_operator, validate_radius_value, validate_radius_regex,
}
use freeradius_k8s_operator.Renderer.Validate.{
  validate_client_spec, validate_sql_config, validate_module_type, validate_module_config,
  validate_group, validate_policy_action, validate_match_leaf, validate_policy_spec,
}
use freeradius_k8s_operator.Renderer.Files.{ConfigFiles, lookup}
use freeradius_k8s_operator.Renderer.Clients.{render_clients}
use freeradius_k8s_operator.Renderer.Radiusd.{render_radiusd}
use freeradius_k8s_operator.Renderer.Sites.Laws.{IsSupported}
use freeradius_k8s_operator.Renderer.Render.Laws.{
  render-valid, render-fixed_files, render-module_file,
}
use freeradius_k8s_operator.Renderer.Modules.{
  known_module_types, execute_template, module_file, render_module, add_module, add_modules,
  render_modules,
}
use freeradius_k8s_operator.Renderer.Sites.{
  valid_stages, action_types, check_action, check_policy, render_sites,
}
use freeradius_k8s_operator.Renderer.Render.{check_client, check_module, check_context, render}
use freeradius_k8s_operator.Renderer.Sites.Sorting.{insertion}
use freeradius_k8s_operator.Renderer.Tests.{sql, unused, pap, context}

checks : check_context context ≡ ok tt
unfolding check_context check_client check_module validate_client_spec validate_sql_config
    validate_module_type validate_module_config validate_group validate_policy_action
    validate_match_leaf validate_policy_spec validate_identifier validate_hostname
    validate_ip_or_cidr validate_quoted_string validate_radius_attribute validate_radius_operator
    validate_radius_value validate_radius_regex match_or_err safe_identifier_re safe_hostname_re
    safe_ip_or_cidr_re safe_radius_attribute_re safe_radius_operator_re safe_radius_value_re
    safe_radius_regex_re safe_quoted_string_re any_text literal up_to match_string nullable
    derivative
checks = refl

rendered : (files : ConfigFiles) × (render insertion context ≡ ok files)
unfolding render render_modules add_modules add_module render_module execute_template
    known_module_types render_sites check_policy check_action valid_stages action_types
rendered = (_, >>-of_ok (check_context context) _ checks)

render-valid_example :
    All (λ c. validate_client_spec c ≡ ok tt) context.clients
    × All (λ m. m.enabled ≡ true → validate_module_config m ≡ ok tt) context.cluster.modules
    × All (λ p. validate_policy_spec p ≡ ok tt) context.policies
    × All IsSupported context.policies
render-valid_example = render-valid insertion context rendered.1

render-fixed_files_example :
    (lookup "clients.conf" rendered.0 ≡ some (render_clients context.clients))
    × (lookup "radiusd.conf" rendered.0 ≡ some (render_radiusd context.cluster))
    × ((sites : String) × (render_sites insertion context.policies
            (context.cluster.coa_enabled ∷ [])
          ≡ ok sites)
        × (lookup "sites-enabled/default" rendered.0 ≡ some sites))
render-fixed_files_example = render-fixed_files insertion context rendered.1

render-module_file_example :
    (content : String) × (render_module sql ≡ ok content)
    × (lookup (module_file sql.name) rendered.0 ≡ some content)
render-module_file_example =
    render-module_file insertion context [] sql (unused ∷ pap ∷ []) refl refl
      ((λ on. ground (arith, eq_iff "old" "sql")), ((λ on. ground (arith, eq_iff "pap" "sql")), tt))
      rendered.1
