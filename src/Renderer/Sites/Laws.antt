-- ===== src/Renderer/Sites/Laws.antt =====
-- When the site renders, and which error it reports.
use freeradius_k8s_operator.Shared.{
  String, ◌≡◌, ◌↔◌, Bool, true, false, List, [], ◌∷◌, ◌++◌, is_in, All, ok, err, >>-eq-ok, >>-of_ok,
  each, each-eq-ok, each-eq-err, Bool-cases, inl, inr,
}
use freeradius_k8s_operator.Renderer.Types.{
  PolicyAction, PolicySpec, invalid_stage_error, invalid_action_error,
}
use freeradius_k8s_operator.Renderer.Sites.{
  SliceSort, valid_stages, action_types, check_action, check_policy, render_sites,
}

abbrev pub IsKnownAction : PolicyAction → Type 0
IsKnownAction a = is_in a.type action_types ≡ true

-- A policy of a known stage with known actions.
pub record IsSupported (p : PolicySpec) : Type 0 where
  pub stage : is_in p.stage valid_stages ≡ true
  pub actions : All IsKnownAction p.actions

check_action_iff : (a : PolicyAction) → (check_action a ≡ ok tt) ↔ IsKnownAction a
unfolding check_action
check_action_iff a = elim (Bool-cases (is_in a.type action_types)) [
  | inl e ↦ (λ h. e, λ h. rw e)
  | inr e ↦ (λ h. cc (rw e at h), λ h. cc)
]

actions_iff :
    (acts : List PolicyAction) → All (λ a. check_action a ≡ ok tt) acts ↔ All IsKnownAction acts
actions_iff [] = (λ h. tt, λ h. tt)
actions_iff (a ∷ acts) = (
  λ h. ((check_action_iff a).0 h.0, (actions_iff acts).0 h.1),
  λ h. ((check_action_iff a).1 h.0, (actions_iff acts).1 h.1),
)

check_policy_iff : (p : PolicySpec) → (check_policy p ≡ ok tt) ↔ IsSupported p
unfolding check_policy
check_policy_iff p = elim (Bool-cases (is_in p.stage valid_stages)) [
  | inl e ↦ (
    λ h. record {
      stage = e;
      actions = (actions_iff p.actions).0 ((each-eq-ok check_action p.actions).0 (rw e at h));
    },
    λ s. rw e ((each-eq-ok check_action p.actions).1 ((actions_iff p.actions).1 s.actions)),
  )
  | inr e ↦ (λ h. cc (rw e at h), λ s. cc (s.stage))
]

policies_iff : (ps : List PolicySpec) → All (λ p. check_policy p ≡ ok tt) ps ↔ All IsSupported ps
policies_iff [] = (λ h. tt, λ h. tt)
policies_iff (p ∷ ps) = (
  λ h. ((check_policy_iff p).0 h.0, (policies_iff ps).0 h.1),
  λ h. ((check_policy_iff p).1 h.0, (policies_iff ps).1 h.1),
)

module _ (sorting : SliceSort) where
  -- The site renders exactly when every policy is of a known stage and has known actions only,
  -- raw text or not.
  pub render_sites-ok_iff :
      (ps : List PolicySpec) (coa : List Bool)
      → ((text : String) × (render_sites sorting ps coa ≡ ok text)) ↔ All IsSupported ps
  unfolding render_sites
  render_sites-ok_iff ps coa = (
    λ (text, h).
        (policies_iff ps).0
          ((each-eq-ok check_policy ps).0 (>>-eq-ok (each check_policy ps) _ h).0),
    λ s. (
      _,
      >>-of_ok (each check_policy ps) _ ((each-eq-ok check_policy ps).1 ((policies_iff ps).1 s)),
    ),
  )

  -- The first policy that is not supported decides the error of the site: if its stage is unknown,
  -- it is that of an invalid stage, with the stage.
  pub render_sites-stage_error :
      (before : List PolicySpec) (p : PolicySpec) (after : List PolicySpec) (coa : List Bool)
      → All IsSupported before
      → is_in p.stage valid_stages ≡ false
      → render_sites sorting (before ++ p ∷ after) coa ≡ err (invalid_stage_error p.stage)
  unfolding render_sites
  render_sites-stage_error before p after coa h k =
      rw (each-eq-err check_policy before p after ((policies_iff before).1 h) (unknown k))
    where
      unknown :
          is_in p.stage valid_stages ≡ false → check_policy p ≡ err (invalid_stage_error p.stage)
      unknown e = unfold check_policy in rw e

  -- The first policy that is not supported decides the error of the site: if its stage is known, it
  -- is that of an invalid action, with the type of the policy's first unknown action.
  pub render_sites-action_error :
      (before : List PolicySpec) (p : PolicySpec) (after : List PolicySpec) (coa : List Bool)
      (known : List PolicyAction) (a : PolicyAction) (rest : List PolicyAction)
      → All IsSupported before
      → is_in p.stage valid_stages ≡ true
      → p.actions ≡ known ++ a ∷ rest
      → All IsKnownAction known
      → is_in a.type action_types ≡ false
      → render_sites sorting (before ++ p ∷ after) coa ≡ err (invalid_action_error a.type)
  unfolding render_sites
  render_sites-action_error before p after coa known a rest h s same k u =
      rw (each-eq-err check_policy before p after ((policies_iff before).1 h) fails)
    where
      refused : check_action a ≡ err (invalid_action_error a.type)
      refused = unfold check_action in rw u

      fails : check_policy p ≡ err (invalid_action_error a.type)
      fails =
          unfold check_policy in
          rw s (simp same (each-eq-err check_action known a rest ((actions_iff known).1 k) refused))
