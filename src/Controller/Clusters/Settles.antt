-- ===== src/Controller/Clusters/Settles.antt =====
-- A round of the reconciler of clusters in which no call fails.
use freeradius_k8s_operator.Shared.{String, ◌≡◌, refl, ap, ◌∙◌, List, ok, err, Result, Check, All}
use freeradius_k8s_operator.Shared.Int.{ℤ}
use freeradius_k8s_operator.Api.Objects.{
  KubeTypes, RadiusCluster, RadiusClusterStatus, RadiusClient, RadiusPolicy,
}
use freeradius_k8s_operator.Kube.{NamespacedName, KubeError, Client, ConditionSetter}
use freeradius_k8s_operator.Renderer.Files.{ConfigFiles}
use freeradius_k8s_operator.Renderer.Types.{SecretRef, Error}
use freeradius_k8s_operator.Renderer.Sites.{SliceSort}
use freeradius_k8s_operator.Renderer.Render.{render}
use freeradius_k8s_operator.Controller.Secrets.{collect_secret_refs}
use freeradius_k8s_operator.Controller.Context.{build_render_context}
use freeradius_k8s_operator.Controller.Hashes.{compute_config_hash}
use freeradius_k8s_operator.Controller.Objects.{Literals}
use freeradius_k8s_operator.Controller.Objects.Store.{ObjectKind, Store, IsLawful, IsServing}
use freeradius_k8s_operator.Controller.Outcome.{Outcome, succeeded}
use freeradius_k8s_operator.Controller.Steps.Converged.{IsConverged, IsStored-IsConverged}
use freeradius_k8s_operator.Controller.Steps.Finishes.{objects-Finishes}
use freeradius_k8s_operator.Controller.Clusters.{
  finish, report_status, with_deployment, with_objects, with_files, with_secrets, reconcile,
}
use freeradius_k8s_operator.Controller.Clusters.Ends.{with_files-IsStored}
use freeradius_k8s_operator.Controller.Clusters.Failing.{
  Reads, reported, clients, policies, refs, secret_answer, reconcile-with_secrets,
  check_secrets-found, with_secrets-found,
}

module _ {K : KubeTypes} (kube : Client K) (conditions : ConditionSetter) (S : Store K kube.World)
    (literals : Literals K) (image : String) (sorting : SliceSort) (hash : String → String)
    (sort_strings : List String → List String)
    (read_back : (k : NamespacedName) (w : kube.World) (c : RadiusCluster K)
        (st : RadiusClusterStatus)
      → kube.get_cluster k w ≡ ok c
      → kube.get_cluster k (kube.update_cluster (record c { status = st }) w).0
        ≡ ok (record c { status = st }))
    (keeps : (k : ObjectKind) (n : NamespacedName) (c : RadiusCluster K) (w : kube.World)
      → S.get k n (kube.update_cluster c w).0 ≡ S.get k n w)
    (L : IsLawful K S) (serving : IsServing K S) (req : NamespacedName)
    (stays : (w : kube.World) → (c : RadiusCluster K) × (kube.get_cluster req w ≡ ok c)) where
  open kube use {World, get_cluster}

  finish-succeeds :
      (w : World)
      → (finish kube conditions S literals image sorting hash sort_strings w (get_cluster req w)).1
        ≡ succeeded
  unfolding finish
  finish-succeeds w = let (c, e) = stays w in rw (e, finish) refl

  report_status-succeeds :
      (ready : ℤ) (w : World)
      → (report_status kube conditions S literals image sorting hash sort_strings req ready w
          (get_cluster req w)).1
        ≡ succeeded
  unfolding report_status
  report_status-succeeds ready w = let (c, e) = stays w in rw (e, report_status) (finish-succeeds _)

  with_deployment-succeeds :
      (w : World) (a : Result KubeError ℤ)
      → (with_deployment kube conditions S literals image sorting hash sort_strings req w a).1
        ≡ succeeded
  unfolding with_deployment
  with_deployment-succeeds w (err e) = finish-succeeds w
  with_deployment-succeeds w (ok ready) = report_status-succeeds ready w

  with_objects-succeeds :
      (cluster : RadiusCluster K) (r : World × Check KubeError)
      → r.1 ≡ ok tt
      → (with_objects kube conditions S literals image sorting hash sort_strings req cluster r).1
        ≡ succeeded
  unfolding with_objects
  with_objects-succeeds cluster (w, ok u) h = with_deployment-succeeds w _
  with_objects-succeeds cluster (w, err e) h = cc

  with_files-succeeds :
      (cluster : RadiusCluster K) (items : List RadiusClient) (w : World) (files : ConfigFiles)
      → (with_files kube conditions S literals image sorting hash sort_strings req cluster items w
          (ok files)).1
        ≡ succeeded
  unfolding with_files
  with_files-succeeds cluster items w files = with_objects-succeeds cluster _ (
      objects-Finishes S serving cluster literals image (collect_secret_refs cluster items)
        (compute_config_hash hash sort_strings files items) files w)

  module _ (w : World)
      (r : Reads kube conditions S literals image sorting hash sort_strings read_back keeps req
        w) where
    abbrev its_clients : List RadiusClient
    its_clients =
        clients kube conditions S literals image sorting hash sort_strings read_back keeps req w r

    abbrev its_policies : List RadiusPolicy
    its_policies =
        policies kube conditions S literals image sorting hash sort_strings read_back keeps req w r

    abbrev its_refs : List SecretRef
    its_refs =
        refs kube conditions S literals image sorting hash sort_strings read_back keeps req w r

    -- When the store is lawful and none of its calls on objects fails, a request for an object that is
    -- not there apart, each update of the status of a cluster that was read is what the next read
    -- finds, and changes no object, the cluster can be read in every state, the round reads the
    -- cluster, the clients and the policies, every secret that is mentioned is found, and the
    -- resources are rendered without an error, then the round succeeds, and at its end the objects
    -- are what the cluster asks for with the rendered files, the secrets and the hash: every wanted
    -- object is there as it is wanted, and every other one that the round looks for is gone.
    pub reconcile-Settles :
        (files : ConfigFiles)
        → All
            (λ q.
              secret_answer kube conditions S literals image sorting hash sort_strings read_back
                keeps req w r q
              ≡ ok tt)
            its_refs
        → render sorting (build_render_context r.cluster its_clients its_policies) ≡ ok files
        → ((reconcile kube conditions S literals image sorting hash sort_strings req w).1
            ≡ succeeded)
          × IsConverged literals image S r.cluster files its_refs
              (compute_config_hash hash sort_strings files its_clients)
              (reconcile kube conditions S literals image sorting hash sort_strings req w).0
    reconcile-Settles files found renders = rw same (
      done,
      IsStored-IsConverged literals image S r.cluster files its_refs _ serving.readable _ (
          with_files-IsStored kube conditions S literals image sorting hash sort_strings L
            serving.readable keeps req r.cluster its_clients v files done),
    )
      where
        v : World
        v =
            reported kube conditions S literals image sorting hash sort_strings read_back keeps req
              w r

        round : Result Error ConfigFiles → World × Outcome
        round =
            with_files kube conditions S literals image sorting hash sort_strings req r.cluster
              its_clients v

        done : (round (ok files)).1 ≡ succeeded
        done = with_files-succeeds r.cluster its_clients v files

        same :
            reconcile kube conditions S literals image sorting hash sort_strings req w
            ≡ round (ok files)
        same =
            reconcile-with_secrets kube conditions S literals image sorting hash sort_strings
              read_back keeps req w r
            ∙ (ap
                  (with_secrets kube conditions S literals image sorting hash sort_strings req
                    r.cluster its_clients its_policies v)
                  (check_secrets-found kube conditions S literals image sorting hash sort_strings
                    read_back keeps req w r found)
                ∙ (with_secrets-found kube conditions S literals image sorting hash sort_strings
                      read_back keeps req w r
                    ∙ ap round renders))
