-- ===== src/Controller/Clusters/Says.antt =====
-- What a round of the reconciler of clusters that succeeds leaves in the conditions of the cluster.
use freeradius_k8s_operator.Shared.{
  String, ◌≡◌, ◌≢◌, refl, ap, ◌∙◌, true, false, List, some, ok, err, Result, Check, Bool-cases, inl,
  inr, arith, eq_iff,
}
use freeradius_k8s_operator.Shared.Int.{ℤ}
use freeradius_k8s_operator.Api.Objects.{
  KubeTypes, Condition, RadiusCluster, RadiusClusterStatus, RadiusClient, RadiusPolicy,
}
use freeradius_k8s_operator.Kube.{NamespacedName, KubeError, Client, ConditionSetter}
use freeradius_k8s_operator.Status.{
  condition, condition_available, condition_progressing, condition_degraded, with_condition,
  flush_cluster_status,
}
use freeradius_k8s_operator.Status.Laws.{status_in, status_of}
use freeradius_k8s_operator.Renderer.Types.{Error}
use freeradius_k8s_operator.Renderer.Files.{ConfigFiles}
use freeradius_k8s_operator.Renderer.Sites.{SliceSort}
use freeradius_k8s_operator.Controller.Errors.{is_invalid_error}
use freeradius_k8s_operator.Controller.Objects.{Literals}
use freeradius_k8s_operator.Controller.Objects.Store.{Store}
use freeradius_k8s_operator.Controller.Outcome.{succeeded}
use freeradius_k8s_operator.Controller.Clusters.{
  SecretProblem, missing, unreadable, completed, finish, report_status, with_deployment,
  with_objects, with_files, with_secrets, with_policies, with_clients, with_cluster, reconcile_on,
  reconcile,
}

-- After three reports of different types, all stand.
three_set :
    (conditions : ConditionSetter) (cs : List Condition) (c d e : Condition)
    → c.type ≢ d.type
    → c.type ≢ e.type
    → d.type ≢ e.type
    → (status_of c.type (
          conditions.set_status_condition
            (conditions.set_status_condition (conditions.set_status_condition cs c) d)
            e)
        ≡ some c.status)
      × (status_of d.type (
            conditions.set_status_condition
              (conditions.set_status_condition (conditions.set_status_condition cs c) d)
              e)
          ≡ some d.status)
      × (status_of e.type (
            conditions.set_status_condition
              (conditions.set_status_condition (conditions.set_status_condition cs c) d)
              e)
          ≡ some e.status)
three_set conditions cs c d e a b h =
    let set = conditions.set_status_condition in
    (
      ap status_in (
          conditions.find-set_other (set (set cs c) d) e c.type b
          ∙ (conditions.find-set_other (set cs c) d c.type a ∙ conditions.find-set_self cs c)),
      ap status_in (
          conditions.find-set_other (set (set cs c) d) e d.type h
          ∙ conditions.find-set_self (set cs c) d),
      ap status_in (conditions.find-set_self (set (set cs c) d) e),
    )

-- The cluster is neither degraded nor progressing, and available.
pub record SaysComplete {K : KubeTypes} (r : RadiusCluster K) : Type 0 where
  pub degraded : status_of condition_degraded r.status.conditions ≡ some "False"
  pub available : status_of condition_available r.status.conditions ≡ some "True"
  pub progressing : status_of condition_progressing r.status.conditions ≡ some "False"

module _ {K : KubeTypes} (kube : Client K) (conditions : ConditionSetter) (S : Store K kube.World)
    (literals : Literals K) (image : String) (sorting : SliceSort) (hash : String → String)
    (sort_strings : List String → List String)
    (read_back : (k : NamespacedName) (w : kube.World) (c : RadiusCluster K)
        (st : RadiusClusterStatus)
      → kube.get_cluster k w ≡ ok c
      → kube.get_cluster k (kube.update_cluster (record c { status = st }) w).0
        ≡ ok (record c { status = st })) where
  open kube use {World, get_cluster}

  completed-SaysComplete :
      (c : RadiusCluster K)
      → SaysComplete (completed kube conditions S literals image sorting hash sort_strings c)
  unfolding completed with_condition
  completed-SaysComplete c =
      let (x, y, z) =
        three_set conditions c.status.conditions
          (condition condition_degraded false "AllSecretsPresent"
            "All referenced secrets are available")
          (condition condition_available true "ReconcileComplete"
            "All resources reconciled successfully")
          (condition condition_progressing false "ReconcileComplete"
            "Reconciliation completed successfully")
          (ground (arith, eq_iff "Degraded" "Available"))
          (ground (arith, eq_iff "Degraded" "Progressing"))
          (ground (arith, eq_iff "Available" "Progressing")) in
      record { degraded = x; available = y; progressing = z }

  -- The next read finds a cluster that says so.
  abbrev pub Says : NamespacedName → World → Type 0
  Says req w = (r : RadiusCluster K) × (get_cluster req w ≡ ok r) × SaysComplete r

  completed-read :
      (req : NamespacedName) (w : World) (c : RadiusCluster K)
      → get_cluster req w ≡ ok c
      → get_cluster req
          (kube.update_cluster
            (completed kube conditions S literals image sorting hash sort_strings c)
            w).0
        ≡ ok (completed kube conditions S literals image sorting hash sort_strings c)
  unfolding completed with_condition
  completed-read req w c same = read_back req w c _ same

  finish-Says :
      (req : NamespacedName) (w : World) (a : Result KubeError (RadiusCluster K))
      → get_cluster req w ≡ a
      → (finish kube conditions S literals image sorting hash sort_strings w a).1 ≡ succeeded
      → Says req (finish kube conditions S literals image sorting hash sort_strings w a).0
  unfolding finish flush_cluster_status
  finish-Says req w (err e) same h = cc
  finish-Says req w (ok c) same h = (
    completed kube conditions S literals image sorting hash sort_strings c,
    completed-read req w c same,
    completed-SaysComplete c,
  )

  report_status-Says :
      (req : NamespacedName) (ready : ℤ) (w : World) (a : Result KubeError (RadiusCluster K))
      → (report_status kube conditions S literals image sorting hash sort_strings req ready w a).1
        ≡ succeeded
      → Says req
          (report_status kube conditions S literals image sorting hash sort_strings req ready w a).0
  unfolding report_status
  report_status-Says req ready w (err e) h = cc
  report_status-Says req ready w (ok c) h = finish-Says req _ _ refl h

  with_deployment-Says :
      (req : NamespacedName) (w : World) (a : Result KubeError ℤ)
      → (with_deployment kube conditions S literals image sorting hash sort_strings req w a).1
        ≡ succeeded
      → Says req
          (with_deployment kube conditions S literals image sorting hash sort_strings req w a).0
  unfolding with_deployment
  with_deployment-Says req w (err e) h = finish-Says req w _ refl h
  with_deployment-Says req w (ok ready) h = report_status-Says req ready w _ h

  with_objects-Says :
      (req : NamespacedName) (cluster : RadiusCluster K) (r : World × Check KubeError)
      → (with_objects kube conditions S literals image sorting hash sort_strings req cluster r).1
        ≡ succeeded
      → Says req
          (with_objects kube conditions S literals image sorting hash sort_strings req cluster r).0
  unfolding with_objects
  with_objects-Says req cluster (w, ok u) h = with_deployment-Says req w _ h
  with_objects-Says req cluster (w, err e) h = cc

  with_files-Says :
      (req : NamespacedName) (cluster : RadiusCluster K) (clients : List RadiusClient) (w : World)
      (a : Result Error ConfigFiles)
      → (with_files kube conditions S literals image sorting hash sort_strings req cluster clients w
          a).1
        ≡ succeeded
      → Says req
          (with_files kube conditions S literals image sorting hash sort_strings req cluster clients
            w a).0
  unfolding with_files
  with_files-Says req cluster clients w (err e) h = elim (Bool-cases (is_invalid_error e)) [
    | inl b ↦ cc (rw b at h)
    | inr b ↦ cc (rw b at h)
  ]
  with_files-Says req cluster clients w (ok files) h = with_objects-Says req cluster _ h

  with_secrets-Says :
      (req : NamespacedName) (cluster : RadiusCluster K) (clients : List RadiusClient)
      (policies : List RadiusPolicy) (w : World) (a : Result SecretProblem (Unit {0}))
      → (with_secrets kube conditions S literals image sorting hash sort_strings req cluster clients
          policies w a).1
        ≡ succeeded
      → Says req
          (with_secrets kube conditions S literals image sorting hash sort_strings req cluster
            clients policies w a).0
  unfolding with_secrets
  with_secrets-Says req cluster clients policies w (err (missing name)) h = cc
  with_secrets-Says req cluster clients policies w (err (unreadable name e)) h = cc
  with_secrets-Says req cluster clients policies w (ok u) h =
      with_files-Says req cluster clients w _ h

  with_policies-Says :
      (req : NamespacedName) (cluster : RadiusCluster K) (clients : List RadiusClient) (w : World)
      (a : Result KubeError (List RadiusPolicy))
      → (with_policies kube conditions S literals image sorting hash sort_strings req cluster
          clients w a).1
        ≡ succeeded
      → Says req
          (with_policies kube conditions S literals image sorting hash sort_strings req cluster
            clients w a).0
  unfolding with_policies
  with_policies-Says req cluster clients w (err e) h = cc
  with_policies-Says req cluster clients w (ok items) h =
      with_secrets-Says req cluster clients _ w _ h

  with_clients-Says :
      (req : NamespacedName) (cluster : RadiusCluster K) (w : World)
      (a : Result KubeError (List RadiusClient))
      → (with_clients kube conditions S literals image sorting hash sort_strings req cluster w a).1
        ≡ succeeded
      → Says req
          (with_clients kube conditions S literals image sorting hash sort_strings req cluster w
            a).0
  unfolding with_clients
  with_clients-Says req cluster w (err e) h = cc
  with_clients-Says req cluster w (ok items) h = with_policies-Says req cluster _ w _ h

  with_cluster-Says :
      (req : NamespacedName) (w : World) (a : Result KubeError (RadiusCluster K))
      → (with_cluster kube conditions S literals image sorting hash sort_strings req w a).1
        ≡ succeeded
      → Says req (with_cluster kube conditions S literals image sorting hash sort_strings req w a).0
  unfolding with_cluster
  with_cluster-Says req w (err e) h = cc
  with_cluster-Says req w (ok cluster) h = with_clients-Says req cluster w _ h

  -- When the cluster is there, each update of the status of a cluster that was read is what the next
  -- read finds, and the round succeeds, then the cluster says at the end that it is available, and
  -- neither degraded nor progressing.
  pub reconcile-Says :
      (req : NamespacedName) (c : RadiusCluster K) (w : World)
      → get_cluster req w ≡ ok c
      → (reconcile kube conditions S literals image sorting hash sort_strings req w).1 ≡ succeeded
      → Says req (reconcile kube conditions S literals image sorting hash sort_strings req w).0
  unfolding reconcile reconcile_on
  reconcile-Says req c w found h =
      rw (found, reconcile_on) (with_cluster-Says req _ _ (rw (found, reconcile_on) at h))
