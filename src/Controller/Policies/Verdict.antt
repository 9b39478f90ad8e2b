-- ===== src/Controller/Policies/Verdict.antt =====
-- What the reconciler of policies leaves in the conditions of a policy.
use freeradius_k8s_operator.Shared.{
  String, ◌≡◌, ◌≢◌, refl, ◌⊎◌, Bool, true, false, not, ◌&&◌, List, [], ◌∷◌, none, some, is_in, all,
  ok, err, Result, Bool-cases, inl, inr, arith, eq_iff,
}
use freeradius_k8s_operator.Api.Resources.{PolicyAction}
use freeradius_k8s_operator.Api.Objects.{KubeTypes, Condition, RadiusPolicy, RadiusCluster}
use freeradius_k8s_operator.Kube.{
  NamespacedName, KubeError, not_found, failed, Client, ConditionSetter,
}
use freeradius_k8s_operator.Status.{
  condition, condition_ready, condition_invalid, bool_to_status, policy_with, set_policy_ready,
  set_policy_invalid,
}
use freeradius_k8s_operator.Status.Laws.{status_of, both_set}
use freeradius_k8s_operator.Controller.Policies.{
  valid_stages, valid_action_types, first_invalid, report_invalid, report_valid, with_cluster,
  with_actions, with_policy, reconcile_on, reconcile,
}

-- Whether the cluster was found.
abbrev pub is_found : {K : KubeTypes} → Result KubeError (RadiusCluster K) → Bool
is_found (ok cluster) = true
is_found (err e) = false

-- A valid stage, valid actions, and a cluster.
abbrev pub is_valid : {K : KubeTypes} → RadiusPolicy → Result KubeError (RadiusCluster K) → Bool
is_valid p answer =
    is_in p.spec.stage valid_stages
    && (all (λ a. is_in a.type valid_action_types) p.spec.actions && is_found answer)

-- The loop finds a type exactly when not all types are valid.
first_invalid-cases :
    (acts : List PolicyAction)
    → ((first_invalid acts ≡ none) × (all (λ a. is_in a.type valid_action_types) acts ≡ true))
      ⊎ ((type : String) × (first_invalid acts ≡ some type)
          × (all (λ a. is_in a.type valid_action_types) acts ≡ false))
unfolding first_invalid
first_invalid-cases [] = inl (refl, refl)
first_invalid-cases (a ∷ acts) = elim (Bool-cases (is_in a.type valid_action_types)) [
  | inr e ↦ inr (a.type, rw e refl, rw e refl)
  | inl e ↦ elim (first_invalid-cases acts) [
    | inl (x, y) ↦ inl (rw (e, x) refl, rw (e, y) refl)
    | inr (t, x, y) ↦ inr (t, rw (e, x) refl, rw (e, y) refl)
  ]
]

-- The policy says that it is valid, or that it is not, and its specification is the given one.
pub record PolicySays (policy : RadiusPolicy) (v : Bool) (p : RadiusPolicy) : Type 0 where
  pub spec : p.spec ≡ policy.spec
  pub ready : status_of condition_ready p.conditions ≡ some (bool_to_status v)
  pub invalid : status_of condition_invalid p.conditions ≡ some (bool_to_status (not v))

module _ {K : KubeTypes} (kube : Client K) (conditions : ConditionSetter)
    (read_back : (k : NamespacedName) (w : kube.World) (p : RadiusPolicy) (cs : List Condition)
      → kube.get_policy k w ≡ ok p
      → kube.get_policy k (kube.update_policy (record p { conditions = cs }) w).0
        ≡ ok (record p { conditions = cs })) where
  open kube use {World, get_cluster, get_policy, update_policy}
  open conditions use {set_status_condition, find-set_self, find-set_other}

  -- The next read finds a policy that says so.
  abbrev pub Leaves : NamespacedName → RadiusPolicy → Bool → World → Type 0
  Leaves req policy v w = (p : RadiusPolicy) × (get_policy req w ≡ ok p) × PolicySays policy v p

  -- Two reports, one on the policy and one on the policy as read again.
  twice :
      (req : NamespacedName) (policy : RadiusPolicy) (c d : Condition) (w : World)
      → get_policy req w ≡ ok policy
      → get_policy req
          (update_policy
            (policy_with kube conditions (policy_with kube conditions policy c) d)
            (update_policy (policy_with kube conditions policy c) w).0).0
        ≡ ok (policy_with kube conditions (policy_with kube conditions policy c) d)
  twice req policy c d w h =
      read_back req _ (policy_with kube conditions policy c) _ (read_back req w policy _ h)

  report_invalid-Leaves :
      (req : NamespacedName) (policy : RadiusPolicy) (reason m n : String) (w : World)
      → get_policy req w ≡ ok policy
      → Leaves req policy false (report_invalid kube conditions req policy reason m n w)
  unfolding report_invalid set_policy_invalid set_policy_ready
  report_invalid-Leaves req policy reason m n w h =
      let c = condition condition_invalid true reason m in
      let d = condition condition_ready false reason n in
      let r = read_back req w policy (set_status_condition policy.conditions c) h in
      let (x, y) =
        both_set conditions policy.conditions c d (ground (arith, eq_iff "Invalid" "Ready")) in
      rw (r, report_invalid, set_policy_invalid)
        (
          policy_with kube conditions (policy_with kube conditions policy c) d,
          twice req policy c d w h,
          record { spec = refl; ready = y; invalid = x },
        )

  report_valid-Leaves :
      (req : NamespacedName) (policy : RadiusPolicy) (w : World)
      → get_policy req w ≡ ok policy
      → Leaves req policy true (report_valid kube conditions req policy w)
  unfolding report_valid set_policy_invalid set_policy_ready
  report_valid-Leaves req policy w h =
      let c = condition condition_ready true "Valid" "RadiusPolicy is valid" in
      let d = condition condition_invalid false "Valid" "RadiusPolicy is valid" in
      let r = read_back req w policy (set_status_condition policy.conditions c) h in
      let (x, y) =
        both_set conditions policy.conditions c d (ground (arith, eq_iff "Ready" "Invalid")) in
      rw (r, report_valid, set_policy_ready)
        (
          policy_with kube conditions (policy_with kube conditions policy c) d,
          twice req policy c d w h,
          record { spec = refl; ready = x; invalid = y },
        )

  with_cluster-Leaves :
      (req : NamespacedName) (policy : RadiusPolicy) (w : World)
      (answer : Result KubeError (RadiusCluster K))
      → get_policy req w ≡ ok policy
      → ((m : String) → answer ≢ err (failed m))
      → Leaves req policy (is_found answer) (with_cluster kube conditions req policy w answer).0
  unfolding with_cluster
  with_cluster-Leaves req policy w (ok cluster) h k = report_valid-Leaves req policy w h
  with_cluster-Leaves req policy w (err not_found) h k = report_invalid-Leaves req policy _ _ _ w h
  with_cluster-Leaves req policy w (err (failed m)) h k = absurd (k m refl)

  with_policy-Leaves :
      (req : NamespacedName) (policy : RadiusPolicy) (w : World)
      (answer : Result KubeError (RadiusCluster K))
      → get_cluster (record { namespace = req.namespace; name = policy.spec.cluster_ref }) w
        ≡ answer
      → get_policy req w ≡ ok policy
      → ((m : String) → answer ≢ err (failed m))
      → Leaves req policy (is_valid policy answer) (with_policy kube conditions req policy w).0
  unfolding with_policy with_actions
  with_policy-Leaves req policy w answer same h k =
      elim (Bool-cases (is_in policy.spec.stage valid_stages)) [
        | inr e ↦ rw e (report_invalid-Leaves req policy _ _ _ w h)
        | inl e ↦ elim (first_invalid-cases policy.spec.actions) [
          | inr (type, x, y) ↦
              rw (e, x, y, with_actions) (report_invalid-Leaves req policy _ _ _ w h)
          | inl (x, y) ↦
              rw (e, x, y, with_actions, same) (with_cluster-Leaves req policy w answer h k)
        ]
      ]

  -- When the policy is read, the request for its cluster is answered, by the cluster or by its
  -- absence, and each update of a policy that was read is what the next read finds, then after a
  -- round of the reconciler the policy has its specification as before, and its conditions `Ready`
  -- and `Invalid` say, the one the opposite of the other, whether the stage and all action types
  -- are valid and the cluster exists.
  pub reconcile_policy-Leaves :
      (req : NamespacedName) (policy : RadiusPolicy) (w : World)
      (answer : Result KubeError (RadiusCluster K))
      → get_policy req w ≡ ok policy
      → get_cluster (record { namespace = req.namespace; name = policy.spec.cluster_ref }) w
        ≡ answer
      → ((m : String) → answer ≢ err (failed m))
      → Leaves req policy (is_valid policy answer) (reconcile kube conditions req w).0
  unfolding reconcile reconcile_on
  reconcile_policy-Leaves req policy w answer h same k =
      rw (h, reconcile_on) (with_policy-Leaves req policy w answer same h k)
