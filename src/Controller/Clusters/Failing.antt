-- ===== src/Controller/Clusters/Failing.antt =====
-- What a round of the reconciler of clusters does when a secret is missing or the resources cannot be
-- rendered.
use freeradius_k8s_operator.Shared.{
  String, ◌≡◌, refl, ap, ◌∙◌, true, List, ◌∷◌, ◌++◌, some, ok, err, Check, All, All-imp,
  each-eq-err, each-eq-ok,
}
use freeradius_k8s_operator.Api.Objects.{
  KubeTypes, RadiusCluster, RadiusClusterStatus, RadiusClient, RadiusPolicy,
}
use freeradius_k8s_operator.Kube.{NamespacedName, KubeError, not_found, Client, ConditionSetter}
use freeradius_k8s_operator.Status.{
  condition, condition_degraded, with_condition, set_progressing, set_degraded,
}
use freeradius_k8s_operator.Status.Laws.{status_in, status_of}
use freeradius_k8s_operator.Renderer.Types.{SecretRef, Error}
use freeradius_k8s_operator.Renderer.Sites.{SliceSort}
use freeradius_k8s_operator.Renderer.Render.{render}
use freeradius_k8s_operator.Controller.Secrets.{
  matching_clients, matching_policies, collect_secret_refs,
}
use freeradius_k8s_operator.Controller.Context.{build_render_context}
use freeradius_k8s_operator.Controller.Errors.{is_invalid_error, invalid_text}
use freeradius_k8s_operator.Controller.Objects.{Literals}
use freeradius_k8s_operator.Controller.Objects.Store.{ObjectKind, Store}
use freeradius_k8s_operator.Controller.Outcome.{Outcome, waiting, rejected}
use freeradius_k8s_operator.Controller.Clusters.{
  missing, secret_problem, check_secrets, with_files, with_secrets, with_policies, with_clients,
  with_cluster, reconcile_on, reconcile,
}

module _ {K : KubeTypes} (kube : Client K) (conditions : ConditionSetter) (S : Store K kube.World)
    (literals : Literals K) (image : String) (sorting : SliceSort) (hash : String → String)
    (sort_strings : List String → List String)
    (read_back : (k : NamespacedName) (w : kube.World) (c : RadiusCluster K)
        (st : RadiusClusterStatus)
      → kube.get_cluster k w ≡ ok c
      → kube.get_cluster k (kube.update_cluster (record c { status = st }) w).0
        ≡ ok (record c { status = st }))
    (keeps : (k : ObjectKind) (n : NamespacedName) (c : RadiusCluster K) (w : kube.World)
      → S.get k n (kube.update_cluster c w).0 ≡ S.get k n w) where
  open kube use {World, get_cluster}

  -- No object of the first state differs from the second one's, and the cluster says that it is
  -- degraded.
  abbrev pub IsHeldBack : NamespacedName → World → World → Type 0
  IsHeldBack req v w =
      ((k : ObjectKind) (n : NamespacedName) → S.get k n v ≡ S.get k n w)
      × ((r : RadiusCluster K) × (get_cluster req v ≡ ok r)
          × (status_of condition_degraded r.status.conditions ≡ some "True"))

  set_degraded-IsHeldBack :
      (req : NamespacedName) (c : RadiusCluster K) (reason msg : String) (w : World)
      → get_cluster req w ≡ ok c
      → IsHeldBack req (set_degraded kube conditions c true reason msg w).0 w
  unfolding set_degraded with_condition
  set_degraded-IsHeldBack req c reason msg w h = (
    λ k n. keeps k n _ w,
    (
      with_condition kube conditions c condition_degraded true reason msg,
      read_back req w c _ h,
      ap status_in (
          conditions.find-set_self c.status.conditions
            (condition condition_degraded true reason msg)),
    ),
  )

  set_progressing-keeps :
      (c : RadiusCluster K) (w : World) (k : ObjectKind) (n : NamespacedName)
      → S.get k n (set_progressing kube conditions c true w).0 ≡ S.get k n w
  unfolding set_progressing
  set_progressing-keeps c w k n = keeps k n _ w

  -- What the round reads before it checks the secrets: the cluster, and, behind its first report, the
  -- cluster again, the clients and the policies.
  pub record Reads (req : NamespacedName) (w : World) : Type 0 where
    pub first : RadiusCluster K
    pub cluster : RadiusCluster K
    pub client_items : List RadiusClient
    pub policy_items : List RadiusPolicy
    pub reads_first : get_cluster req w ≡ ok first
    pub reads : get_cluster req (set_progressing kube conditions first true w).0 ≡ ok cluster
    pub lists_clients :
        S.list_clients req.namespace (set_progressing kube conditions first true w).0
        ≡ ok client_items
    pub lists_policies :
        S.list_policies req.namespace (set_progressing kube conditions first true w).0
        ≡ ok policy_items

  module _ (req : NamespacedName) (w : World) (r : Reads req w) where
    -- The state behind the first report.
    abbrev pub reported : World
    reported = (set_progressing kube conditions r.first true w).0

    abbrev pub clients : List RadiusClient
    clients = matching_clients r.cluster.meta.name r.client_items

    abbrev pub policies : List RadiusPolicy
    policies = matching_policies r.cluster.meta.name r.policy_items

    abbrev pub refs : List SecretRef
    refs = collect_secret_refs r.cluster clients

    abbrev pub secret_answer : SecretRef → Check KubeError
    secret_answer ref =
        S.get_secret (record { namespace = req.namespace; name = ref.name }) reported

    pub reconcile-with_secrets :
        reconcile kube conditions S literals image sorting hash sort_strings req w
        ≡ with_secrets kube conditions S literals image sorting hash sort_strings req r.cluster
            clients policies reported
            (check_secrets kube conditions S literals image sorting hash sort_strings req.namespace
              refs reported)
    unfolding reconcile reconcile_on with_cluster with_clients with_policies
    reconcile-with_secrets =
        rw
          (
            r.reads_first, reconcile_on, r.reads, with_cluster, r.lists_clients, with_clients,
            r.lists_policies, with_policies,
          )
          refl

    secret_problem-ok :
        (rs : List SecretRef)
        → All (λ ref. secret_answer ref ≡ ok tt) rs
        → All
            (λ ref.
              secret_problem kube conditions S literals image sorting hash sort_strings ref.name
                (secret_answer ref)
              ≡ ok tt)
            rs
    secret_problem-ok rs h =
        All-imp
          (λ ref e.
            ap (secret_problem kube conditions S literals image sorting hash sort_strings ref.name)
              e)
          rs h

    check_secrets-missing :
        (before : List SecretRef) (ref : SecretRef) (after : List SecretRef)
        → refs ≡ before ++ ref ∷ after
        → All (λ q. secret_answer q ≡ ok tt) before
        → secret_answer ref ≡ err not_found
        → check_secrets kube conditions S literals image sorting hash sort_strings req.namespace
            refs reported
          ≡ err (missing ref.name)
    unfolding check_secrets
    check_secrets-missing before ref after e h k = rw e (
        each-eq-err _ before ref after (secret_problem-ok before h) (
          ap (secret_problem kube conditions S literals image sorting hash sort_strings ref.name)
            k))

    held_back :
        (o : Outcome) (reason msg : String) (x : World × Outcome)
        → x ≡ ((set_degraded kube conditions r.cluster true reason msg reported).0, o)
        → (x.1 ≡ o) × IsHeldBack req x.0 w
    held_back o reason msg x same =
        let (objects, says) = set_degraded-IsHeldBack req r.cluster reason msg reported r.reads in
        rw same (refl, (λ k n. objects k n ∙ set_progressing-keeps r.first w k n, says))

    -- When each update of the status of a cluster that was read is what the next read finds, and
    -- changes no object, the round reads the cluster, the clients and the policies, and one of the
    -- secrets that are mentioned is the first that is missing, those before it being found, then the
    -- round asks to be called again after 30 seconds, no object is changed, and the cluster says that
    -- it is degraded.
    pub reconcile-missing :
        (before : List SecretRef) (ref : SecretRef) (after : List SecretRef)
        → refs ≡ before ++ ref ∷ after
        → All (λ q. secret_answer q ≡ ok tt) before
        → secret_answer ref ≡ err not_found
        → ((reconcile kube conditions S literals image sorting hash sort_strings req w).1
            ≡ waiting 30)
          × IsHeldBack req
              (reconcile kube conditions S literals image sorting hash sort_strings req w).0
              w
    unfolding with_secrets
    reconcile-missing before ref after e h k =
        held_back (waiting 30) "MissingSecret" _
          (reconcile kube conditions S literals image sorting hash sort_strings req w)
          (reconcile-with_secrets
            ∙ ap
                (with_secrets kube conditions S literals image sorting hash sort_strings req
                  r.cluster clients policies reported)
                (check_secrets-missing before ref after e h k))

    with_files-invalid :
        (e : Error)
        → is_invalid_error e ≡ true
        → with_files kube conditions S literals image sorting hash sort_strings req r.cluster
            clients reported
            (err e)
          ≡ (
            (set_degraded kube conditions r.cluster true "InvalidSpec" (invalid_text e) reported).0,
            rejected,
          )
    unfolding with_files
    with_files-invalid e h = rw h refl

    pub check_secrets-found :
        All (λ q. secret_answer q ≡ ok tt) refs
        → check_secrets kube conditions S literals image sorting hash sort_strings req.namespace
            refs reported
          ≡ ok tt
    unfolding check_secrets
    check_secrets-found h = (each-eq-ok _ refs).1 (secret_problem-ok refs h)

    pub with_secrets-found :
        with_secrets kube conditions S literals image sorting hash sort_strings req r.cluster
          clients policies reported
          (ok tt)
        ≡ with_files kube conditions S literals image sorting hash sort_strings req r.cluster
            clients reported
            (render sorting (build_render_context r.cluster clients policies))
    unfolding with_secrets
    with_secrets-found = refl

    -- When each update of the status of a cluster that was read is what the next read finds, and
    -- changes no object, the round reads the cluster, the clients and the policies, every secret that
    -- is mentioned is found, and the rendering fails with one of the errors of an invalid
    -- specification, then the round is over with neither an error nor a call to come, no object is
    -- changed, and the cluster says that it is degraded.
    pub reconcile-invalid :
        (e : Error)
        → All (λ q. secret_answer q ≡ ok tt) refs
        → render sorting (build_render_context r.cluster clients policies) ≡ err e
        → is_invalid_error e ≡ true
        → ((reconcile kube conditions S literals image sorting hash sort_strings req w).1
            ≡ rejected)
          × IsHeldBack req
              (reconcile kube conditions S literals image sorting hash sort_strings req w).0
              w
    reconcile-invalid e found fails known =
        held_back rejected "InvalidSpec" (invalid_text e)
          (reconcile kube conditions S literals image sorting hash sort_strings req w)
          (reconcile-with_secrets
            ∙ (ap
                  (with_secrets kube conditions S literals image sorting hash sort_strings req
                    r.cluster clients policies reported)
                  (check_secrets-found found)
                ∙ (with_secrets-found
                    ∙ (ap
                          (with_files kube conditions S literals image sorting hash sort_strings req
                            r.cluster clients reported)
                          fails
                        ∙ with_files-invalid e known))))
