-- ===== src/Renderer/Tests/Validated.antt =====
-- The theorems on validated clients and policies, at the test data.
use freeradius_k8s_operator.Shared.{◌≡◌, refl, [], ◌∷◌, ◌++◌, map, arith, ok}
use freeradius_k8s_operator.Regexp.{up_to, literal, nullable, derivative, match_string}
use freeradius_k8s_operator.Renderer.Sanitize.{
  any_text, safe_identifier_re, safe_ip_or_cidr_re, safe_radius_attribute_re,
  safe_radius_operator_re, safe_radius_value_re, safe_radius_regex_re, match_or_err,
  validate_identifier, validate_ip_or_cidr, validate_radius_attribute, validate_radius_operator,
  validate_radius_value, validate_radius_regex,
}
use freeradius_k8s_operator.Renderer.Validate.{
  validate_client_spec, validate_group, validate_policy_action, validate_match_leaf,
  validate_policy_spec,
}
use freeradius_k8s_operator.Renderer.Validate.Clients.{IsChecked, read_sections-validated}
use freeradius_k8s_operator.Renderer.Validate.Policies.{
  IsCheckedPolicy, validate_policy_spec-IsCheckedPolicy,
}
use freeradius_k8s_operator.Renderer.Clients.{render_clients}
use freeradius_k8s_operator.Renderer.Clients.Reader.{read_sections}
use freeradius_k8s_operator.Renderer.Clients.RoundTrip.{section_of, local_sections}
use freeradius_k8s_operator.Renderer.Tests.{nas, early}

nas-IsChecked : IsChecked nas
unfolding validate_client_spec validate_identifier validate_ip_or_cidr match_or_err
    safe_identifier_re safe_ip_or_cidr_re up_to match_string nullable derivative
nas-IsChecked = record {
  valid = refl;
  generated = refl;
  secret_name = omega arith;
  secret_key = omega arith;
}

read_sections-validated_example :
    read_sections (render_clients (nas ∷ [])) ≡ local_sections ++ map section_of (nas ∷ [])
read_sections-validated_example = read_sections-validated (nas ∷ []) (nas-IsChecked, tt)

early-valid : validate_policy_spec early ≡ ok tt
unfolding validate_policy_spec validate_group validate_policy_action validate_match_leaf
    validate_identifier validate_radius_attribute validate_radius_operator validate_radius_value
    validate_radius_regex match_or_err safe_identifier_re safe_radius_attribute_re
    safe_radius_operator_re safe_radius_value_re safe_radius_regex_re any_text literal up_to
    match_string nullable derivative
early-valid = refl

validate_policy_spec-IsCheckedPolicy_example : IsCheckedPolicy early
validate_policy_spec-IsCheckedPolicy_example =
    validate_policy_spec-IsCheckedPolicy early refl early-valid
