-- ===== src/Renderer/Render/Errors.antt =====
-- The errors of the validation.
use freeradius_k8s_operator.Shared.{◌≡◌, refl, err, each, >>-eq-err, each-err, Bool-cases, inl, inr}
use freeradius_k8s_operator.Renderer.Types.{ClientSpec, ModuleConfig, RenderContext, Error}
use freeradius_k8s_operator.Renderer.Validate.{validate_policy_spec}
use freeradius_k8s_operator.Renderer.Validate.Errors.{
  IsWithin, map_err-IsWithin, validate_policy_spec-IsWithin,
}
use freeradius_k8s_operator.Renderer.Render.{check_client, check_module, check_context, render}
use freeradius_k8s_operator.Renderer.Sites.{SliceSort}

check_client-IsWithin : (c : ClientSpec) (e : Error) → check_client c ≡ err e → IsWithin e
unfolding check_client
check_client-IsWithin c e h = map_err-IsWithin _ _ _ e h

check_module-IsWithin : (m : ModuleConfig) (e : Error) → check_module m ≡ err e → IsWithin e
unfolding check_module
check_module-IsWithin m e h = elim (Bool-cases m.enabled) [
  | inl on ↦ map_err-IsWithin _ _ _ e (simp on at h)
  | inr off ↦ cc (simp off at h)
]

pub check_context-IsWithin :
    (ctx : RenderContext) (e : Error) → check_context ctx ≡ err e → IsWithin e
unfolding check_context
check_context-IsWithin ctx e h = elim (>>-eq-err (each check_client ctx.clients) _ h) [
  | inl c ↦ each-err IsWithin check_client check_client-IsWithin ctx.clients e c
  | inr r ↦ elim (>>-eq-err (each check_module ctx.cluster.modules) _ r) [
    | inl m ↦ each-err IsWithin check_module check_module-IsWithin ctx.cluster.modules e m
    | inr p ↦ each-err IsWithin validate_policy_spec validate_policy_spec-IsWithin ctx.policies e p
  ]
]

-- A validation that fails ends the rendering with its error.
pub render-check_error :
    (sorting : SliceSort) (ctx : RenderContext) (e : Error)
    → check_context ctx ≡ err e
    → render sorting ctx ≡ err e
unfolding render
render-check_error sorting ctx e h = rw h refl
