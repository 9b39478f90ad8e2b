-- ===== src/Renderer/Modules/Lookup.antt =====
-- Which file each module leaves, and that the modules leave no other file alone.
use freeradius_k8s_operator.Shared.{
  String, ◌≡◌, ◌≢◌, refl, sym, ap, ◌∙◌, inl, inr, true, List, [], ◌∷◌, ◌++◌, none, some, arith, All,
  ok, ◌>>=◌, Bool-cases, Result-cases, >>=-eq-ok,
}
use freeradius_k8s_operator.Renderer.Types.{ModuleConfig}
use freeradius_k8s_operator.Renderer.Files.{ConfigFiles, lookup, assign}
use freeradius_k8s_operator.Renderer.Files.Laws.{lookup-assign_self, lookup-assign_ne}
use freeradius_k8s_operator.Renderer.Modules.{
  render_module, module_file, data_file, add_module, add_modules, render_modules,
}
use freeradius_k8s_operator.Renderer.Modules.Laws.{
  add_module_disabled, add_module-ok, emit_data_files-lookup, data-ne-module, module_file_injective,
  module-ne-fixed, data-ne-fixed, char_code,
}

-- The module writes no file of the name `k`.
pub record Spares (k : String) (m : ModuleConfig) : Type 0 where
  pub own : m.enabled ≡ true → module_file m.name ≢ k
  pub extra : m.enabled ≡ true → (suffix : String) → data_file m.name suffix ≢ k

module _ (k : String) where
  add_module-lookup :
      (files : ConfigFiles) (m : ModuleConfig) {out : ConfigFiles}
      → Spares k m
      → add_module files m ≡ ok out
      → lookup k out ≡ lookup k files
  add_module-lookup files m {out} s h = elim (Bool-cases m.enabled) [
    | inl e ↦
        let (content, _, same) = add_module-ok files m e h in
        ap (lookup k) same
        ∙ (emit_data_files-lookup k m (assign (module_file m.name) content files) (s.extra e)
            ∙ lookup-assign_ne (module_file m.name) k content files (s.own e))
    | inr e ↦
        let same : files ≡ out = ground (arith, add_module_disabled files m e) in
        ap (lookup k) (sym same)
  ]

  add_modules-lookup :
      (files : ConfigFiles) (ms : List ModuleConfig) {out : ConfigFiles}
      → All (Spares k) ms
      → add_modules files ms ≡ ok out
      → lookup k out ≡ lookup k files
  unfolding add_modules
  add_modules-lookup files [] s h = ground arith
  add_modules-lookup files (m ∷ ms) (p, s) h =
      let (mid, a, b) = >>=-eq-ok (add_module files m) _ h in
      add_modules-lookup mid ms s b ∙ add_module-lookup files m p a

add_modules-append :
    (files : ConfigFiles) (xs ys : List ModuleConfig)
    → add_modules files (xs ++ ys) ≡ (add_modules files xs >>= λ out. add_modules out ys)
unfolding add_modules
add_modules-append files [] ys = refl
add_modules-append files (x ∷ xs) ys = elim (Result-cases (add_module files x)) [
  | inl (out, e) ↦ rw e (add_modules-append out xs ys)
  | inr (e, f) ↦ rw f
]

-- The modules touch no file outside mods-enabled and mods-config.
pub render_modules-lookup_fixed :
    (k : String) (ms : List ModuleConfig) {out : ConfigFiles}
    → char_code 4 k ≢ b'-'
    → render_modules ms ≡ ok out
    → lookup k out ≡ none
unfolding render_modules lookup
render_modules-lookup_fixed k ms c h = add_modules-lookup k [] ms (all ms) h
  where
    all : (ms : List ModuleConfig) → All (Spares k) ms
    all [] = tt
    all (m ∷ ms) = (
      record {
        own = λ e. module-ne-fixed m.name k c;
        extra = λ e suffix. data-ne-fixed m.name suffix k c;
      },
      all ms,
    )

-- When the modules render, the file of an enabled module holds what the module renders to, unless
-- a later enabled module has the same name.
pub render_modules-lookup :
    (before : List ModuleConfig) (m : ModuleConfig) (after : List ModuleConfig) {out : ConfigFiles}
    → m.enabled ≡ true
    → All (λ a. a.enabled ≡ true → a.name ≢ m.name) after
    → render_modules (before ++ m ∷ after) ≡ ok out
    → (content : String) × (render_module m ≡ ok content)
      × (lookup (module_file m.name) out ≡ some content)
unfolding render_modules add_modules
render_modules-lookup before m after {out} e apart h =
    let (mid, _, b) =
      >>=-eq-ok (add_modules [] before) _ (sym (add_modules-append [] before (m ∷ after)) ∙ h) in
    let (own, c, d) = >>=-eq-ok (add_module mid m) _ b in
    let (content, r, same) = add_module-ok mid m e c in
    (
      content,
      r,
      add_modules-lookup (module_file m.name) own after (spared after apart) d
          ∙ (ap (lookup (module_file m.name)) same
              ∙ (emit_data_files-lookup (module_file m.name) m _
                    (λ suffix. data-ne-module m.name m.name suffix)
                  ∙ lookup-assign_self (module_file m.name) content mid)),
    )
  where
    spared :
        (ds : List ModuleConfig)
        → All (λ a. a.enabled ≡ true → a.name ≢ m.name) ds
        → All (Spares (module_file m.name)) ds
    spared [] k = tt
    spared (a ∷ ds) (p, k) = (
      record {
        own = λ on same. p on (module_file_injective a.name m.name same);
        extra = λ on suffix. data-ne-module m.name a.name suffix;
      },
      spared ds k,
    )
