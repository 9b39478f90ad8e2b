-- ===== src/Controller/Clients.antt =====
-- `Reconcile` of internal/controller/radiusclient_controller.go. Logging is left out; the label of
-- the metrics is part of the outcome.
pub mod Verdict
use freeradius_k8s_operator.Shared.{String, Bool, true, false, ok, err, Result, Check}
use freeradius_k8s_operator.Api.Objects.{KubeTypes, RadiusClient, RadiusCluster}
use freeradius_k8s_operator.Kube.{
  NamespacedName, KubeError, not_found, failed, Client, ConditionSetter,
}
use freeradius_k8s_operator.Status.{set_client_ready, set_client_invalid}
use freeradius_k8s_operator.Controller.Outcome.{
  Outcome, succeeded, waiting, returned, client_error, fetching_cluster, missing_cluster,
}

module _ {K : KubeTypes} (kube : Client K) (conditions : ConditionSetter) where
  open kube use {World, get_cluster, get_client}

  -- The two reports on a client whose cluster is missing: the second one is on the client as read
  -- again.
  pub report_missing : NamespacedName → RadiusClient → World → World
  report_missing req rc w =
      let w' =
        (set_client_invalid kube conditions rc true "ClusterNotFound"
          (missing_cluster rc.spec.cluster_ref req.namespace) w).0 in
      elim (get_client req w') [
        | err e ↦ w'
        | ok r ↦
            (set_client_ready kube conditions r false "ClusterNotFound" "Waiting for RadiusCluster"
              w').0
      ]

  -- Those on a client that is accepted.
  pub report_valid : NamespacedName → RadiusClient → World → World
  report_valid req rc w =
      let w' = (set_client_ready kube conditions rc true "Valid" "RadiusClient is valid" w).0 in
      elim (get_client req w') [
        | err e ↦ w'
        | ok r ↦ (set_client_invalid kube conditions r false "Valid" "RadiusClient is valid" w').0
      ]

  -- The second part, on the answer to the request for the cluster.
  pub with_cluster :
      NamespacedName → RadiusClient → World → Result KubeError (RadiusCluster K) → World × Outcome
  unfolding report_missing report_valid
  with_cluster req rc w (err not_found) = (report_missing req rc w, waiting 30)
  with_cluster req rc w (err (failed m)) =
      (w, returned (fetching_cluster rc.spec.cluster_ref (failed m)))
  with_cluster req rc w (ok cluster) = (report_valid req rc w, succeeded)

  -- The first part, on the answer to the request for the client.
  reconcile_on : NamespacedName → World → Result KubeError RadiusClient → World × Outcome
  unfolding with_cluster
  reconcile_on req w (err not_found) = (w, succeeded)
  reconcile_on req w (err (failed m)) = (w, returned (client_error (failed m)))
  reconcile_on req w (ok rc) =
      with_cluster req rc w
        (get_cluster (record { namespace = req.namespace; name = rc.spec.cluster_ref }) w)

  pub reconcile : NamespacedName → World → World × Outcome
  reconcile req w = reconcile_on req w (get_client req w)
