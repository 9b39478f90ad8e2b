-- ===== src/Renderer/Render/Laws.antt =====
-- What a successful rendering has checked, and the files that it returns.
use freeradius_k8s_operator.Shared.{
  String, ◌≡◌, ◌≢◌, ◌∙◌, true, List, [], ◌∷◌, ◌++◌, some, All, All-imp, arith, eq_iff, ap, sym, ok,
  each, each-eq-ok, >>-eq-ok, >>=-eq-ok, map_err-eq-ok,
}
use freeradius_k8s_operator.Renderer.Types.{ClientSpec, ModuleConfig, RenderContext}
use freeradius_k8s_operator.Renderer.Validate.{
  validate_client_spec, validate_module_config, validate_policy_spec,
}
use freeradius_k8s_operator.Renderer.Files.{ConfigFiles, lookup, assign, assign_all}
use freeradius_k8s_operator.Renderer.Files.Laws.{
  lookup-assign_self, lookup-assign_ne, lookup-assign_all_none, lookup-assign_all-some,
}
use freeradius_k8s_operator.Renderer.Clients.{render_clients}
use freeradius_k8s_operator.Renderer.Radiusd.{render_radiusd}
use freeradius_k8s_operator.Renderer.Modules.{render_module, render_modules, module_file}
use freeradius_k8s_operator.Renderer.Modules.Laws.{module-ne-fixed}
use freeradius_k8s_operator.Renderer.Modules.Lookup.{
  render_modules-lookup, render_modules-lookup_fixed,
}
use freeradius_k8s_operator.Renderer.Sites.{SliceSort, render_sites}
use freeradius_k8s_operator.Renderer.Sites.Laws.{IsSupported, render_sites-ok_iff}
use freeradius_k8s_operator.Renderer.Render.{check_client, check_module, check_context, render}

module _ (sorting : SliceSort) (ctx : RenderContext) where
  -- The parts of a successful rendering.
  record Parts (files : ConfigFiles) : Type 0 where
    checked : check_context ctx ≡ ok tt
    mod_files : ConfigFiles
    modules : render_modules ctx.cluster.modules ≡ ok mod_files
    sites : String
    rendered : render_sites sorting ctx.policies (ctx.cluster.coa_enabled ∷ []) ≡ ok sites
    result :
        files
        ≡ assign "sites-enabled/default" sites (
            assign_all mod_files (
              assign "radiusd.conf"
                (render_radiusd ctx.cluster)
                (assign "clients.conf" (render_clients ctx.clients) [])))

  Parts-of : {files : ConfigFiles} → render sorting ctx ≡ ok files → Parts files
  unfolding render
  Parts-of h =
      let (c, a) = >>-eq-ok (check_context ctx) _ h in
      let (m, mods, b) = >>=-eq-ok (render_modules ctx.cluster.modules) _ a in
      let (s, sites, d) = >>=-eq-ok (render_sites sorting ctx.policies _) _ b in
      record {
        checked = c;
        mod_files = m;
        modules = mods;
        sites = s;
        rendered = sites;
        result = ground arith;
      }

  -- A successful rendering returns the clients' file, the server's file and the site, each with
  -- what its own part renders.
  pub render-fixed_files :
      {files : ConfigFiles}
      → render sorting ctx ≡ ok files
      → (lookup "clients.conf" files ≡ some (render_clients ctx.clients))
        × (lookup "radiusd.conf" files ≡ some (render_radiusd ctx.cluster))
        × ((sites : String) × (render_sites sorting ctx.policies (ctx.cluster.coa_enabled ∷ [])
              ≡ ok sites)
            × (lookup "sites-enabled/default" files ≡ some sites))
  render-fixed_files h =
      let p = Parts-of h in
      (
        ap (lookup "clients.conf") p.result
            ∙ (lookup-assign_ne "sites-enabled/default" "clients.conf" _ _
                  (ground (arith, eq_iff "sites-enabled/default" "clients.conf"))
                ∙ (lookup-assign_all_none "clients.conf" p.mod_files _
                      (render_modules-lookup_fixed "clients.conf" _ (omega arith) p.modules)
                    ∙ (lookup-assign_ne "radiusd.conf" "clients.conf" _ _
                          (ground (arith, eq_iff "radiusd.conf" "clients.conf"))
                        ∙ lookup-assign_self "clients.conf" _ []))),
        ap (lookup "radiusd.conf") p.result
            ∙ (lookup-assign_ne "sites-enabled/default" "radiusd.conf" _ _
                  (ground (arith, eq_iff "sites-enabled/default" "radiusd.conf"))
                ∙ (lookup-assign_all_none "radiusd.conf" p.mod_files _
                      (render_modules-lookup_fixed "radiusd.conf" _ (omega arith) p.modules)
                    ∙ lookup-assign_self "radiusd.conf" _ _)),
        (
          p.sites,
          p.rendered,
          ap (lookup "sites-enabled/default") p.result
              ∙ lookup-assign_self "sites-enabled/default" p.sites _,
        ),
      )

  -- A successful rendering returns the file of each enabled module, with what the module renders
  -- to, unless a later enabled module has the same name.
  pub render-module_file :
      (before : List ModuleConfig) (m : ModuleConfig) (after : List ModuleConfig)
      {files : ConfigFiles}
      → ctx.cluster.modules ≡ before ++ m ∷ after
      → m.enabled ≡ true
      → All (λ a. a.enabled ≡ true → a.name ≢ m.name) after
      → render sorting ctx ≡ ok files
      → (content : String) × (render_module m ≡ ok content)
        × (lookup (module_file m.name) files ≡ some content)
  render-module_file before m after e on apart h =
      let p = Parts-of h in
      let (content, r, found) =
        render_modules-lookup before m after on apart (ap render_modules (sym e) ∙ p.modules) in
      (
        content,
        r,
        ap (lookup (module_file m.name)) p.result
            ∙ (lookup-assign_ne "sites-enabled/default" (module_file m.name) _ _
                  (λ same. module-ne-fixed m.name "sites-enabled/default" (omega arith) (sym same))
                ∙ lookup-assign_all-some (module_file m.name) p.mod_files _ found),
      )

  check_client-valid : (c : ClientSpec) → check_client c ≡ ok tt → validate_client_spec c ≡ ok tt
  unfolding check_client
  check_client-valid c h = map_err-eq-ok _ _ h

  check_module-valid :
      (m : ModuleConfig)
      → check_module m ≡ ok tt
      → m.enabled ≡ true
      → validate_module_config m ≡ ok tt
  unfolding check_module
  check_module-valid m h e = map_err-eq-ok _ _ (simp e at h)

  -- A successful rendering has validated every client, every enabled module and every policy, and
  -- every policy is of a known stage with known actions.
  pub render-valid :
      {files : ConfigFiles}
      → render sorting ctx ≡ ok files
      → All (λ c. validate_client_spec c ≡ ok tt) ctx.clients
        × All (λ m. m.enabled ≡ true → validate_module_config m ≡ ok tt) ctx.cluster.modules
        × All (λ p. validate_policy_spec p ≡ ok tt) ctx.policies
        × All IsSupported ctx.policies
  unfolding check_context
  render-valid h =
      let p = Parts-of h in
      let (c, rest) = >>-eq-ok (each check_client ctx.clients) _ p.checked in
      let (m, q) = >>-eq-ok (each check_module ctx.cluster.modules) _ rest in
      (
        All-imp check_client-valid ctx.clients ((each-eq-ok check_client ctx.clients).0 c),
        All-imp check_module-valid ctx.cluster.modules
            ((each-eq-ok check_module ctx.cluster.modules).0 m),
        (each-eq-ok validate_policy_spec ctx.policies).0 q,
        (render_sites-ok_iff sorting ctx.policies _).0 (p.sites, p.rendered),
      )
