-- ===== src/Operator/Tests/Agreeing.antt =====
-- The theorem on the two renderings of the clients, at a cluster without modules and policies.
use freeradius_k8s_operator.Shared.{◌≡◌, refl, [], ◌∷◌, some, ok, >>-of_ok}
use freeradius_k8s_operator.Regexp.{up_to, nullable, derivative, match_string}
use freeradius_k8s_operator.Renderer.Sanitize.{
  any_text, safe_identifier_re, safe_ip_or_cidr_re, match_or_err, validate_identifier,
  validate_ip_or_cidr,
}
use freeradius_k8s_operator.Renderer.Validate.{validate_client_spec}
use freeradius_k8s_operator.Renderer.Types.{RenderContext}
use freeradius_k8s_operator.Renderer.Files.{ConfigFiles, lookup}
use freeradius_k8s_operator.Renderer.Clients.{render_clients}
use freeradius_k8s_operator.Renderer.Modules.{render_modules, add_modules}
use freeradius_k8s_operator.Renderer.Sites.{render_sites}
use freeradius_k8s_operator.Renderer.Sites.Sorting.{insertion}
use freeradius_k8s_operator.Renderer.Render.{check_client, check_context, render}
use freeradius_k8s_operator.Api.Objects.{RadiusCluster}
use freeradius_k8s_operator.Controller.Context.{build_render_context, client_spec, secret_ref}
use freeradius_k8s_operator.Controller.Secrets.{matching_clients}
use freeradius_k8s_operator.Controller.Tests.{units, cluster, nas}
use freeradius_k8s_operator.Operator.RenderClients.{selected}
use freeradius_k8s_operator.Operator.RenderClients.Writes.{selected-agrees}

abbrev bare : RadiusCluster units
bare = record cluster { spec = record cluster.spec { modules = [] } }

abbrev context : RenderContext
context = build_render_context bare (matching_clients "main" (nas ∷ [])) []

checks : check_context context ≡ ok tt
unfolding check_context check_client validate_client_spec validate_identifier validate_ip_or_cidr
    match_or_err safe_identifier_re safe_ip_or_cidr_re any_text up_to match_string nullable
    derivative build_render_context client_spec secret_ref matching_clients
checks = refl

rendered : (files : ConfigFiles) × (render insertion context ≡ ok files)
unfolding render render_modules add_modules render_sites build_render_context matching_clients
rendered = (_, >>-of_ok (check_context context) _ checks)

selected-agrees_example :
    lookup "clients.conf" rendered.0 ≡ some (render_clients (selected "main" (nas ∷ [])))
unfolding matching_clients
selected-agrees_example = selected-agrees insertion bare (nas ∷ []) [] (refl, tt) rendered.1
