-- ===== src/Controller/Tests/Failing.antt =====
-- The theorem on failing validations, at a client whose name starts with a digit.
use freeradius_k8s_operator.Shared.{◌≡◌, refl, false, [], ◌∷◌, err}
use freeradius_k8s_operator.Shared.Int.{pos}
use freeradius_k8s_operator.Regexp.{up_to, nullable, derivative, match_string}
use freeradius_k8s_operator.Renderer.Types.{ClientSpec, RenderContext, Error, invalid_value, within}
use freeradius_k8s_operator.Renderer.Sanitize.{
  safe_identifier_re, match_or_err, validate_identifier,
}
use freeradius_k8s_operator.Renderer.Validate.{validate_client_spec}
use freeradius_k8s_operator.Renderer.Render.{check_client, check_context, render}
use freeradius_k8s_operator.Renderer.Sites.Sorting.{insertion}
use freeradius_k8s_operator.Controller.Errors.{is_invalid_error, render-is_invalid_error}

abbrev misnamed : ClientSpec
misnamed = record {
  name = "1nas";
  ip = "10.0.0.1";
  secret_ref = record { name = "nas"; key = "secret" };
  nas_type = "";
  raw_config = "";
}

abbrev context : RenderContext
context = record {
  cluster = record {
    replicas = pos 1;
    image = "freeradius";
    modules = [];
    coa_enabled = false;
    coa_port = pos 0;
    radiusd = record {
      log = record { destination = ""; auth = false; auth_badpass = false; auth_goodpass = false };
      security = record { max_attributes = pos 0; reject_delay = pos 0 };
      thread_pool = record {
        start_servers = pos 0;
        max_servers = pos 0;
        min_spare_servers = pos 0;
        max_spare_servers = pos 0;
        max_requests_per_server = pos 0;
      };
      max_request_time = pos 0;
      max_requests = pos 0;
      raw_config = "";
    };
  };
  clients = misnamed ∷ [];
  policies = [];
}

abbrev failure : Error
failure =
    within "validating client" "1nas"
      (invalid_value "client name" "1nas" "is not a valid identifier")

fails : check_context context ≡ err failure
unfolding check_context check_client validate_client_spec validate_identifier match_or_err
    safe_identifier_re up_to match_string nullable derivative
fails = refl

render-is_invalid_error_example :
    (render insertion context ≡ err failure) × (is_invalid_error failure ≡ false)
render-is_invalid_error_example = render-is_invalid_error insertion context failure fails
