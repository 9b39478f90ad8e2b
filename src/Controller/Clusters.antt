-- ===== src/Controller/Clusters.antt =====
-- `Reconcile` and `enqueueOwningCluster` of internal/controller/radiuscluster_controller.go. Logging
-- is left out; the label of the metrics is part of the outcome. Each part is by cases on the answer
-- to a request.
pub mod Ends
pub mod Keeps
pub mod Says
pub mod Settles
pub mod Triggers
pub mod Failing
use freeradius_k8s_operator.Shared.{
  String, Bool, true, false, List, [], ◌∷◌, Option, none, some, if◌then◌else◌, is_empty, append,
  concat, ok, err, Result, Check, each,
}
use freeradius_k8s_operator.Shared.Int.{ℤ}
use freeradius_k8s_operator.Api.Objects.{
  KubeTypes, RadiusCluster, RadiusClient, RadiusPolicy, Condition,
}
use freeradius_k8s_operator.Kube.{
  NamespacedName, KubeError, not_found, failed, Client, ConditionSetter,
}
use freeradius_k8s_operator.Status.{
  condition_available, condition_progressing, condition_degraded, with_condition, set_progressing,
  set_degraded, update_cluster_status, flush_cluster_status,
}
use freeradius_k8s_operator.Renderer.Types.{SecretRef, Error}
use freeradius_k8s_operator.Renderer.Files.{ConfigFiles}
use freeradius_k8s_operator.Renderer.Sites.{SliceSort}
use freeradius_k8s_operator.Renderer.Render.{render}
use freeradius_k8s_operator.Controller.Secrets.{
  matching_clients, matching_policies, collect_secret_refs,
}
use freeradius_k8s_operator.Controller.Context.{build_render_context}
use freeradius_k8s_operator.Controller.Endpoints.{deployment_suffix}
use freeradius_k8s_operator.Controller.Errors.{is_invalid_error, invalid_text}
use freeradius_k8s_operator.Controller.Hashes.{compute_config_hash}
use freeradius_k8s_operator.Controller.Restarts.{count_pod_restarts}
use freeradius_k8s_operator.Controller.Objects.{Literals}
use freeradius_k8s_operator.Controller.Objects.Store.{Store}
use freeradius_k8s_operator.Controller.Steps.{reconcile_objects}
use freeradius_k8s_operator.Controller.Quote.{quoted}
use freeradius_k8s_operator.Controller.Outcome.{
  Outcome, succeeded, rejected, waiting, returned, client_error, listing_clients, listing_policies,
  fetching_secret, rendering_config,
}

-- An object that is watched.
pub data Watched : Type 0 where
  a_client : RadiusClient → Watched
  a_policy : RadiusPolicy → Watched
  another : Watched

-- The cluster that is named, in the namespace of the object.
owner_request : String → String → List NamespacedName
owner_request namespace cluster_ref =
    if is_empty cluster_ref then [] else record { namespace = namespace; name = cluster_ref } ∷ []

unfoldable pub enqueue_owning_cluster : Watched → List NamespacedName
unfolding owner_request
enqueue_owning_cluster (a_client c) = owner_request c.meta.namespace c.spec.cluster_ref
enqueue_owning_cluster (a_policy p) = owner_request p.meta.namespace p.spec.cluster_ref
enqueue_owning_cluster another = []

-- What the loop over the secrets stops at.
pub data SecretProblem : Type 0 where
  missing : String → SecretProblem
  unreadable : String → KubeError → SecretProblem

module _ {K : KubeTypes} (kube : Client K) (conditions : ConditionSetter) (S : Store K kube.World)
    (literals : Literals K) (image : String) (sorting : SliceSort) (hash : String → String)
    (sort_strings : List String → List String) where
  open kube use {World, get_cluster}

  -- The body of the loop over the secrets, on the answer for one.
  abbrev pub secret_problem : String → Check KubeError → Result SecretProblem (Unit {0})
  secret_problem name (ok found) = ok tt
  secret_problem name (err not_found) = err (missing name)
  secret_problem name (err (failed m)) = err (unreadable name (failed m))

  unfoldable pub check_secrets : String → List SecretRef → World → Result SecretProblem (Unit {0})
  check_secrets namespace refs w =
      each
        (λ ref.
          secret_problem ref.name
            (S.get_secret (record { namespace = namespace; name = ref.name }) w))
        refs

  -- The last three conditions.
  unfoldable pub completed : RadiusCluster K → RadiusCluster K
  completed cluster =
      let ready =
        with_condition kube conditions cluster condition_degraded false "AllSecretsPresent"
          "All referenced secrets are available" in
      let available =
        with_condition kube conditions ready condition_available true "ReconcileComplete"
          "All resources reconciled successfully" in
      with_condition kube conditions available condition_progressing false "ReconcileComplete"
        "Reconciliation completed successfully"

  -- The end, on the cluster as read for the last time.
  unfoldable pub finish : World → Result KubeError (RadiusCluster K) → World × Outcome
  unfolding completed
  finish w (err e) = (w, returned (client_error e))
  finish w (ok cluster) =
      ((flush_cluster_status kube conditions (completed cluster) w).0, succeeded)

  -- The status of the deployment, on the cluster as read for it.
  unfoldable pub report_status :
      NamespacedName → ℤ → World → Result KubeError (RadiusCluster K) → World × Outcome
  unfolding finish
  report_status req ready w (err e) = (w, returned (client_error e))
  report_status req ready w (ok cluster) =
      let restarts = count_pod_restarts S req.namespace cluster.meta.name w in
      let w' =
        (update_cluster_status kube conditions cluster ready cluster.spec.image restarts w).0 in
      finish w' (get_cluster req w')

  -- The part behind the steps, on the deployment without a role.
  unfoldable pub with_deployment : NamespacedName → World → Result KubeError ℤ → World × Outcome
  unfolding report_status finish
  with_deployment req w (err e) = finish w (get_cluster req w)
  with_deployment req w (ok ready) = report_status req ready w (get_cluster req w)

  unfoldable pub with_objects :
      NamespacedName → RadiusCluster K → World × Check KubeError → World × Outcome
  unfolding with_deployment
  with_objects req cluster (w, err e) = (w, returned (client_error e))
  with_objects req cluster (w, ok done) = with_deployment req w (
      S.ready_replicas
        (record { namespace = req.namespace; name = append cluster.meta.name deployment_suffix }) w)

  -- The part behind the rendering.
  unfoldable pub with_files :
      NamespacedName
      → RadiusCluster K
      → List RadiusClient
      → World
      → Result Error ConfigFiles
      → World × Outcome
  unfolding with_objects
  with_files req cluster clients w (err e) =
      if is_invalid_error e
      then (
        (set_degraded kube conditions cluster true "InvalidSpec" (invalid_text e) w).0,
        rejected,
      )
      else (w, returned (rendering_config e))
  with_files req cluster clients w (ok files) = with_objects req cluster (
      reconcile_objects literals image S cluster files (collect_secret_refs cluster clients)
        (compute_config_hash hash sort_strings files clients) w)

  -- The part behind the check of the secrets.
  unfoldable pub with_secrets :
      NamespacedName
      → RadiusCluster K
      → List RadiusClient
      → List RadiusPolicy
      → World
      → Result SecretProblem (Unit {0})
      → World × Outcome
  unfolding with_files
  with_secrets req cluster clients policies w (err (missing name)) = (
    (set_degraded kube conditions cluster true "MissingSecret"
        (concat ("Secret " ∷ quoted name ∷ " not found" ∷ [])) w).0,
    waiting 30,
  )
  with_secrets req cluster clients policies w (err (unreadable name e)) =
      (w, returned (fetching_secret name e))
  with_secrets req cluster clients policies w (ok found) =
      with_files req cluster clients w
        (render sorting (build_render_context cluster clients policies))

  unfoldable pub with_policies :
      NamespacedName
      → RadiusCluster K
      → List RadiusClient
      → World
      → Result KubeError (List RadiusPolicy)
      → World × Outcome
  unfolding with_secrets check_secrets
  with_policies req cluster clients w (err e) = (w, returned (listing_policies e))
  with_policies req cluster clients w (ok items) =
      with_secrets req cluster clients (matching_policies cluster.meta.name items) w
        (check_secrets req.namespace (collect_secret_refs cluster clients) w)

  unfoldable pub with_clients :
      NamespacedName
      → RadiusCluster K
      → World
      → Result KubeError (List RadiusClient)
      → World × Outcome
  unfolding with_policies
  with_clients req cluster w (err e) = (w, returned (listing_clients e))
  with_clients req cluster w (ok items) =
      with_policies req cluster (matching_clients cluster.meta.name items) w
        (S.list_policies req.namespace w)

  -- The cluster as read again, after the first report.
  unfoldable pub with_cluster :
      NamespacedName → World → Result KubeError (RadiusCluster K) → World × Outcome
  unfolding with_clients
  with_cluster req w (err e) = (w, returned (client_error e))
  with_cluster req w (ok cluster) = with_clients req cluster w (S.list_clients req.namespace w)

  unfoldable pub reconcile_on :
      NamespacedName → World → Result KubeError (RadiusCluster K) → World × Outcome
  unfolding with_cluster
  reconcile_on req w (err not_found) = (w, succeeded)
  reconcile_on req w (err (failed m)) = (w, returned (client_error (failed m)))
  reconcile_on req w (ok cluster) =
      let w' = (set_progressing kube conditions cluster true w).0 in
      with_cluster req w' (get_cluster req w')

  unfoldable pub reconcile : NamespacedName → World → World × Outcome
  unfolding reconcile_on
  reconcile req w = reconcile_on req w (get_cluster req w)
