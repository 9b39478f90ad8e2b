-- ===== src/Renderer/Modules/Laws.antt =====
-- Which modules render, and which files they leave.
use freeradius_k8s_operator.Shared.{
  ℕ, String, code, ◌≡◌, ◌≢◌, refl, sym, ap, ◌∙◌, inl, inr, true, false, List, [], ◌∷◌, ◌==◌,
  is_empty, is_in, append, arith, ok, fun_ext, ◌>>=◌, zero, suc, ◌&&◌, not, Bool-cases,
  Option-cases, >>=-eq-ok, map_err-eq-ok, keep,
}
use freeradius_k8s_operator.Renderer.Types.{ModuleConfig}
use freeradius_k8s_operator.Renderer.Files.{ConfigFiles, lookup, assign}
use freeradius_k8s_operator.Renderer.Files.Laws.{lookup-assign_ne}
use freeradius_k8s_operator.Renderer.Modules.{
  known_module_types, render_module, module_file, data_file, emit_data, emit_data_files, add_module,
  add_modules, render_modules,
}

-- Adding a disabled module changes nothing.
pub add_module_disabled :
    (files : ConfigFiles) (m : ModuleConfig) → m.enabled ≡ false → add_module files m ≡ ok files
unfolding add_module
add_module_disabled files m e = rw e

add_modules-enabled :
    (files : ConfigFiles) (ms : List ModuleConfig)
    → add_modules files ms ≡ add_modules files (keep (λ m. m.enabled) ms)
unfolding add_modules
add_modules-enabled files [] = refl
add_modules-enabled files (m ∷ ms) = elim (Bool-cases m.enabled) [
  | inl e ↦ simp e (ap (λ k. add_module files m >>= k) (fun_ext λ f. add_modules-enabled f ms))
  | inr e ↦ simp (e, add_module_disabled files m e) (add_modules-enabled files ms)
]

-- A disabled module has no influence on the result.
pub render_modules-enabled :
    (ms : List ModuleConfig) → render_modules ms ≡ render_modules (keep (λ m. m.enabled) ms)
unfolding render_modules
render_modules-enabled ms = add_modules-enabled [] ms

-- The code of the character at a position, 0 past the end.
abbrev pub char_code : ℕ → String → ℕ
char_code i String.[] = 0
char_code zero (String.◌∷◌ c s) = code c
char_code (suc i) (String.◌∷◌ c s) = char_code i s

drop : ℕ → String → String
drop zero s = s
drop (suc i) String.[] = String.[]
drop (suc i) (String.◌∷◌ c s) = drop i s

pub data-ne-module : (a b c : String) → data_file b c ≢ module_file a
unfolding data_file module_file append
data-ne-module a b c e = absurd (omega (arith, ap (char_code 5) e))

pub module_file_injective : (a b : String) → module_file a ≡ module_file b → a ≡ b
unfolding module_file append drop
module_file_injective a b e = ap (drop 13) e

-- The keys that start with another text than `mods-`.
pub module-ne-fixed : (a k : String) → char_code 4 k ≢ b'-' → module_file a ≢ k
unfolding module_file append
module-ne-fixed a k h e = h (sym (ap (char_code 4) e))

pub data-ne-fixed : (b c k : String) → char_code 4 k ≢ b'-' → data_file b c ≢ k
unfolding data_file append
data-ne-fixed b c k h e = h (sym (ap (char_code 4) e))

module _ (k : String) where
  emit_data-lookup :
      (name suffix contents : String) (files : ConfigFiles)
      → data_file name suffix ≢ k
      → lookup k (emit_data name suffix contents files) ≡ lookup k files
  unfolding emit_data
  emit_data-lookup name suffix contents files h = elim (Bool-cases (is_empty contents)) [
    | inl e ↦ rw e
    | inr e ↦ rw e (lookup-assign_ne (data_file name suffix) k contents files h)
  ]

  pub emit_data_files-lookup :
      (m : ModuleConfig) (files : ConfigFiles)
      → ((suffix : String) → data_file m.name suffix ≢ k)
      → lookup k (emit_data_files m files) ≡ lookup k files
  unfolding emit_data_files
  emit_data_files-lookup m files h = elim (Option-cases m.files) [
    | inl e ↦ rw (e, emit_data_files)
    | inr (cfg, e) ↦
        rw (e, emit_data_files)
          (elim (Bool-cases (m.type == "rlm_files")) [
            | inl t ↦ rw t (
                emit_data-lookup m.name "accounting" cfg.accounting _ (h "accounting")
                ∙ emit_data-lookup m.name "authorize" cfg.authorize files (h "authorize"))
            | inr t ↦ rw t
          ])
  ]

-- What a module that is added leaves: its own file holds what it renders to.
pub add_module-ok :
    (files : ConfigFiles) (m : ModuleConfig) {out : ConfigFiles}
    → m.enabled ≡ true
    → add_module files m ≡ ok out
    → (content : String) × (render_module m ≡ ok content)
      × (out ≡ emit_data_files m (assign (module_file m.name) content files))
unfolding add_module
add_module-ok files m e h =
    let h' = simp e at h in
    elim (Bool-cases (is_empty m.raw_config && not (is_in m.type known_module_types))) [
      | inl bad ↦ cc (rw bad at h')
      | inr good ↦
          let (content, r, k) = >>=-eq-ok _ _ (rw good at h') in
          (content, map_err-eq-ok _ _ r, ground arith)
    ]
