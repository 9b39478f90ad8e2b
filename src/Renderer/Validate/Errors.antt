-- ===== src/Renderer/Validate/Errors.antt =====
-- The errors of the validation of policies.
use freeradius_k8s_operator.Shared.{
  String, ◌≡◌, Option, none, some, ok, err, Check, map_err, each, >>-eq-err, each-err, Bool-cases,
  inl, inr, is_empty,
}
use freeradius_k8s_operator.Renderer.Types.{PolicySpec, PolicyMatch, Error, within}
use freeradius_k8s_operator.Renderer.Validate.{
  validate_match_leaf, leaves, for_some, validate_policy_spec,
}

-- An error that wraps another one.
abbrev pub IsWithin : Error → Type 0
IsWithin e = (what name : String) × (inner : Error) × (e ≡ within what name inner)

pub map_err-IsWithin :
    (what name : String) (c : Check Error) (e : Error)
    → map_err (within what name) c ≡ err e
    → IsWithin e
map_err-IsWithin what name (ok tt) e h = cc
map_err-IsWithin what name (err d) e h = (what, name, d, cc)

policy_match-IsWithin :
    (name : String) (o : Option PolicyMatch) (e : Error)
    → for_some (λ m. map_err (within "policy" name) (each validate_match_leaf (leaves m))) o ≡ err e
    → IsWithin e
policy_match-IsWithin name none e h = cc
policy_match-IsWithin name (some m) e h = map_err-IsWithin _ _ _ e h

pub validate_policy_spec-IsWithin :
    (p : PolicySpec) (e : Error) → validate_policy_spec p ≡ err e → IsWithin e
unfolding validate_policy_spec
validate_policy_spec-IsWithin p e h = elim (Bool-cases (is_empty p.raw_config)) [
  | inr raw ↦ cc (rw raw at h)
  | inl gen ↦ elim (>>-eq-err (for_some _ p.match) _ (rw gen at h)) [
    | inl m ↦ policy_match-IsWithin p.name p.match e m
    | inr a ↦ each-err IsWithin _ (λ x d k. map_err-IsWithin _ _ _ d k) p.actions e a
  ]
]
