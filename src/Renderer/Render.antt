-- ===== src/Renderer/Render.antt =====
-- `Render` of internal/renderer/renderer.go: the checks, then the files.
pub mod Laws
pub mod Errors
use freeradius_k8s_operator.Shared.{
  String, List, [], ◌∷◌, if◌then◌else◌, ok, err, Check, Result, ◌>>=◌, ◌>>◌, map_err, each,
}
use freeradius_k8s_operator.Renderer.Types.{
  ClientSpec, ModuleConfig, PolicySpec, RenderContext, Error, within,
}
use freeradius_k8s_operator.Renderer.Validate.{
  validate_client_spec, validate_module_config, validate_policy_spec,
}
use freeradius_k8s_operator.Renderer.Files.{ConfigFiles, assign, assign_all}
use freeradius_k8s_operator.Renderer.Clients.{render_clients}
use freeradius_k8s_operator.Renderer.Radiusd.{render_radiusd}
use freeradius_k8s_operator.Renderer.Modules.{render_modules}
use freeradius_k8s_operator.Renderer.Sites.{SliceSort, render_sites}

-- The bodies of the first two loops.
unfoldable pub check_client : ClientSpec → Check Error
check_client c = map_err (within "validating client" c.name) (validate_client_spec c)

unfoldable pub check_module : ModuleConfig → Check Error
check_module m =
    if m.enabled
    then map_err (within "validating module" m.name) (validate_module_config m)
    else ok tt

unfoldable pub check_context : RenderContext → Check Error
check_context ctx = do
  each check_client ctx.clients
  each check_module ctx.cluster.modules
  each validate_policy_spec ctx.policies

module _ (sorting : SliceSort) where
  unfoldable pub render : RenderContext → Result Error ConfigFiles
  render ctx = do
    check_context ctx
    let files = assign "clients.conf" (render_clients ctx.clients) []
    let files' = assign "radiusd.conf" (render_radiusd ctx.cluster) files
    mod_files ← render_modules ctx.cluster.modules
    sites ← render_sites sorting ctx.policies (ctx.cluster.coa_enabled ∷ [])
    ok (assign "sites-enabled/default" sites (assign_all mod_files files'))
