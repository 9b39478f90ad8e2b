-- ===== src/Controller/Policies.antt =====
-- `Reconcile` of internal/controller/radiuspolicy_controller.go. Logging is left out; the label of
-- the metrics is part of the outcome.
pub mod Verdict
use freeradius_k8s_operator.Shared.{
  String, Bool, true, false, not, List, [], ◌∷◌, Option, none, some, if◌then◌else◌, is_in, concat,
  ok, err, Result, Check, ℕ,
}
use freeradius_k8s_operator.Api.Resources.{PolicyAction}
use freeradius_k8s_operator.Api.Objects.{KubeTypes, Condition, RadiusPolicy, RadiusCluster}
use freeradius_k8s_operator.Kube.{
  NamespacedName, KubeError, not_found, failed, Client, ConditionSetter,
}
use freeradius_k8s_operator.Status.{set_policy_ready, set_policy_invalid}
use freeradius_k8s_operator.Controller.Quote.{quoted}
use freeradius_k8s_operator.Controller.Outcome.{
  Outcome, ReconcileError, succeeded, rejected, waiting, returned, client_error, fetching_cluster,
  missing_cluster,
}

abbrev pub valid_stages : List String
valid_stages =
    "authorize" ∷ "authenticate" ∷ "preacct" ∷ "accounting" ∷ "post-auth" ∷ "pre-proxy"
    ∷ "post-proxy" ∷ "session" ∷ []

abbrev pub valid_action_types : List String
valid_action_types = "set" ∷ "call" ∷ "reject" ∷ "accept" ∷ []

-- The type of the first action that is not valid.
pub first_invalid : List PolicyAction → Option String
first_invalid [] = none
first_invalid (a ∷ acts) =
    let rest = first_invalid acts in
    if not (is_in a.type valid_action_types) then some a.type else rest

module _ {K : KubeTypes} (kube : Client K) (conditions : ConditionSetter) where
  open kube use {World, get_cluster, get_policy}

  -- The two reports of a policy that is refused: the second one is on the policy as read again.
  pub report_invalid : NamespacedName → RadiusPolicy → String → String → String → World → World
  report_invalid req policy reason invalid_msg ready_msg w =
      let w' = (set_policy_invalid kube conditions policy true reason invalid_msg w).0 in
      elim (get_policy req w') [
        | err e ↦ w'
        | ok p ↦ (set_policy_ready kube conditions p false reason ready_msg w').0
      ]

  -- Those of a policy that is accepted.
  pub report_valid : NamespacedName → RadiusPolicy → World → World
  report_valid req policy w =
      let w' = (set_policy_ready kube conditions policy true "Valid" "RadiusPolicy is valid" w).0 in
      elim (get_policy req w') [
        | err e ↦ w'
        | ok p ↦ (set_policy_invalid kube conditions p false "Valid" "RadiusPolicy is valid" w').0
      ]

  -- The last part, on the answer to the request for the cluster.
  pub with_cluster :
      NamespacedName → RadiusPolicy → World → Result KubeError (RadiusCluster K) → World × Outcome
  unfolding report_invalid report_valid
  with_cluster req policy w (err not_found) = (
    report_invalid req policy "ClusterNotFound"
        (missing_cluster policy.spec.cluster_ref req.namespace) "Waiting for RadiusCluster" w,
    waiting 30,
  )
  with_cluster req policy w (err (failed m)) =
      (w, returned (fetching_cluster policy.spec.cluster_ref (failed m)))
  with_cluster req policy w (ok cluster) = (report_valid req policy w, succeeded)

  -- The middle part, on the first action that is not valid.
  pub with_actions : NamespacedName → RadiusPolicy → World → Option String → World × Outcome
  unfolding with_cluster report_invalid
  with_actions req policy w (some type) = (
    report_invalid req policy "InvalidActionType"
        (concat ("unrecognized action type " ∷ quoted type ∷ [])) "Invalid action type" w,
    rejected,
  )
  with_actions req policy w none =
      with_cluster req policy w
        (get_cluster (record { namespace = req.namespace; name = policy.spec.cluster_ref }) w)

  -- The policy that was read.
  pub with_policy : NamespacedName → RadiusPolicy → World → World × Outcome
  unfolding with_actions report_invalid first_invalid
  with_policy req policy w =
      if not (is_in policy.spec.stage valid_stages)
      then (
        report_invalid req policy "InvalidStage"
            (concat ("unrecognized stage " ∷ quoted policy.spec.stage ∷ [])) "Invalid stage value"
            w,
        rejected,
      )
      else with_actions req policy w (first_invalid policy.spec.actions)

  reconcile_on : NamespacedName → World → Result KubeError RadiusPolicy → World × Outcome
  unfolding with_policy
  reconcile_on req w (err not_found) = (w, succeeded)
  reconcile_on req w (err (failed m)) = (w, returned (client_error (failed m)))
  reconcile_on req w (ok policy) = with_policy req policy w

  pub reconcile : NamespacedName → World → World × Outcome
  reconcile req w = reconcile_on req w (get_policy req w)
