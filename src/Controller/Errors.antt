-- ===== src/Controller/Errors.antt =====
-- `isInvalidError` of internal/controller/radiuscluster_controller.go, which decides whether a
-- rendering error marks the cluster as `Degraded` or is returned and tried again.
use freeradius_k8s_operator.Shared.{String, append, ◌≡◌, ap, Bool, true, false, err}
use freeradius_k8s_operator.Renderer.Types.{
  Error, RenderContext, invalid_module_error, invalid_stage_error, invalid_action_error,
}
use freeradius_k8s_operator.Renderer.Sites.{SliceSort}
use freeradius_k8s_operator.Renderer.Render.{check_context, render}
use freeradius_k8s_operator.Renderer.Render.Errors.{check_context-IsWithin, render-check_error}

-- The type switch looks at the error itself, not at those that it wraps.
unfoldable pub is_invalid_error : Error → Bool
is_invalid_error (invalid_module_error _) = true
is_invalid_error (invalid_stage_error _) = true
is_invalid_error (invalid_action_error _) = true
is_invalid_error _ = false

-- `Error` of the three types of errors that the switch knows, of which alone it is asked for.
pub invalid_text : Error → String
invalid_text (invalid_module_error t) = append "unrecognized module type: " t
invalid_text (invalid_stage_error s) = append "unrecognized stage: " s
invalid_text (invalid_action_error t) = append "unrecognized action type: " t
invalid_text _ = ""

-- When the validation of a client, an enabled module or a policy fails, the rendering fails with
-- that error, and the controller does not take it for one of an invalid specification.
pub render-is_invalid_error :
    (sorting : SliceSort) (ctx : RenderContext) (e : Error)
    → check_context ctx ≡ err e
    → (render sorting ctx ≡ err e) × (is_invalid_error e ≡ false)
unfolding is_invalid_error
render-is_invalid_error sorting ctx e h =
    let (what, name, inner, same) = check_context-IsWithin ctx e h in
    (render-check_error sorting ctx e h, ap is_invalid_error same)
