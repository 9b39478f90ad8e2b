-- ===== src/Renderer/Tests/Parts.antt =====
-- The theorems on the parts of the renderer, at the test data.
use freeradius_k8s_operator.Shared.{
  String, ◌≡◌, refl, ◌↔◌, Bool, true, List, [], ◌∷◌, map, some, Perm, All, ok, err, keep,
}
use freeradius_k8s_operator.Renderer.Types.{
  MatchLeaf, PolicySpec, PolicyAction, invalid_stage_error, invalid_action_error,
}
use freeradius_k8s_operator.Renderer.Sanitize.{validate_identifier, validate_quoted_string}
use freeradius_k8s_operator.Renderer.Sanitize.Safe.{
  IsIdentifier, IsQuotable, validate_identifier_iff, validate_quoted_string_iff,
}
use freeradius_k8s_operator.Renderer.Conditions.{build_condition}
use freeradius_k8s_operator.Renderer.Conditions.Meaning.{print, IsConj, eval, holds}
use freeradius_k8s_operator.Renderer.Conditions.Structure.{condition_expr}
use freeradius_k8s_operator.Renderer.Conditions.Correct.{build_condition-meaning}
use freeradius_k8s_operator.Renderer.Modules.{render_modules}
use freeradius_k8s_operator.Renderer.Modules.Laws.{render_modules-enabled}
use freeradius_k8s_operator.Renderer.Sites.{valid_stages, action_types, build_stages, render_sites}
use freeradius_k8s_operator.Renderer.Sites.Stages.{
  all_policies, IsOrdered, build_stages-perm, build_stages-IsOrdered,
}
use freeradius_k8s_operator.Renderer.Sites.Laws.{
  IsSupported, render_sites-ok_iff, render_sites-stage_error, render_sites-action_error,
}
use freeradius_k8s_operator.Renderer.Sites.Sorting.{insertion}
use freeradius_k8s_operator.Renderer.Radiusd.{build_radiusd_context}
use freeradius_k8s_operator.Renderer.Radiusd.Defaults.{
  AreDefaulted, build_radiusd_context-AreDefaulted,
}
use freeradius_k8s_operator.Renderer.Tests.{
  sql, unused, pap, cluster, action, call_sql, bob_or_test, late, early,
}

validate_identifier_iff_example :
    (validate_identifier "client name" "nas-1" ≡ ok tt) ↔ IsIdentifier "nas-1"
validate_identifier_iff_example = validate_identifier_iff "client name" "nas-1"

validate_quoted_string_iff_example :
    (validate_quoted_string "SQL login" "o'neil" ≡ ok tt) ↔ IsQuotable "o'neil"
validate_quoted_string_iff_example = validate_quoted_string_iff "SQL login" "o'neil"

build_condition-meaning_example :
    (build_condition (some bob_or_test) ≡ print (condition_expr (some bob_or_test)))
    × IsConj (condition_expr (some bob_or_test))
    × ((v : MatchLeaf → Bool)
        → eval v (condition_expr (some bob_or_test)) ≡ holds v (some bob_or_test))
build_condition-meaning_example = build_condition-meaning (some bob_or_test)

abbrev policies : List PolicySpec
policies = late ∷ early ∷ []

build_stages-perm_example : Perm (all_policies (build_stages insertion policies)) policies
unfolding valid_stages
build_stages-perm_example = build_stages-perm insertion policies (refl, (refl, tt))

build_stages-IsOrdered_example :
    (map (λ s. s.name) (build_stages insertion policies) ≡ valid_stages)
    × All (IsOrdered insertion) (build_stages insertion policies)
build_stages-IsOrdered_example = build_stages-IsOrdered insertion policies

render_sites-ok_iff_example :
    ((text : String) × (render_sites insertion policies (true ∷ []) ≡ ok text))
    ↔ All IsSupported policies
render_sites-ok_iff_example = render_sites-ok_iff insertion policies (true ∷ [])

late-IsSupported : IsSupported late
unfolding valid_stages action_types
late-IsSupported = record { stage = refl; actions = (refl, (refl, tt)) }

abbrev misplaced : PolicySpec
misplaced = record late { stage = "pre-auth" }

render_sites-stage_error_example :
    render_sites insertion (late ∷ misplaced ∷ early ∷ []) []
    ≡ err (invalid_stage_error misplaced.stage)
unfolding valid_stages
render_sites-stage_error_example =
    render_sites-stage_error insertion (late ∷ []) misplaced (early ∷ []) [] (late-IsSupported, tt)
      refl

abbrev log_it : PolicyAction
log_it = record action { type = "log" }

abbrev logging : PolicySpec
logging = record late { actions = call_sql ∷ log_it ∷ [] }

render_sites-action_error_example :
    render_sites insertion (late ∷ logging ∷ []) [] ≡ err (invalid_action_error log_it.type)
unfolding valid_stages action_types
render_sites-action_error_example =
    render_sites-action_error insertion (late ∷ []) logging [] [] (call_sql ∷ []) log_it []
      (late-IsSupported, tt) refl refl (refl, tt) refl

render_modules-enabled_example :
    render_modules (sql ∷ unused ∷ pap ∷ [])
    ≡ render_modules (keep (λ m. m.enabled) (sql ∷ unused ∷ pap ∷ []))
render_modules-enabled_example = render_modules-enabled (sql ∷ unused ∷ pap ∷ [])

build_radiusd_context-AreDefaulted_example :
    AreDefaulted cluster.radiusd (build_radiusd_context cluster)
build_radiusd_context-AreDefaulted_example = build_radiusd_context-AreDefaulted cluster
