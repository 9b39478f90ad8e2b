-- ===== src/Controller/Clusters/Keeps.antt =====
-- The end of a round, which reports on the cluster, changes no object.
use freeradius_k8s_operator.Shared.{
  String, ◌≡◌, ◌≢◌, refl, sym, subst, ◌∙◌, List, ok, err, Result, Check, All-imp, Bool-cases, inl,
  inr,
}
use freeradius_k8s_operator.Shared.Int.{ℤ}
use freeradius_k8s_operator.Api.Objects.{KubeTypes, RadiusCluster, RadiusClient}
use freeradius_k8s_operator.Kube.{NamespacedName, KubeError, Client, ConditionSetter}
use freeradius_k8s_operator.Status.{update_cluster_status, flush_cluster_status}
use freeradius_k8s_operator.Renderer.Types.{SecretRef, Error}
use freeradius_k8s_operator.Renderer.Files.{ConfigFiles}
use freeradius_k8s_operator.Renderer.Sites.{SliceSort}
use freeradius_k8s_operator.Controller.Endpoints.{build_endpoints, stale_suffixes}
use freeradius_k8s_operator.Controller.Errors.{is_invalid_error}
use freeradius_k8s_operator.Controller.Objects.{Literals}
use freeradius_k8s_operator.Controller.Objects.Store.{ObjectKind, Store}
use freeradius_k8s_operator.Controller.Outcome.{succeeded}
use freeradius_k8s_operator.Controller.Steps.PerEndpoint.{IsAsScaled}
use freeradius_k8s_operator.Controller.Steps.Fixed.{IsAsBudgeted}
use freeradius_k8s_operator.Controller.Steps.Stored.{IsStored}
use freeradius_k8s_operator.Controller.Clusters.{
  finish, report_status, with_deployment, with_objects, with_files,
}

module _ {K : KubeTypes} (literals : Literals K) (image : String) {World : Type 0}
    (S : Store K World) (cluster : RadiusCluster K) (files : ConfigFiles) (refs : List SecretRef)
    (hash : String) where
  -- Two states with the same objects hold the same.
  pub IsStored-same :
      (v w : World)
      → ((k : ObjectKind) (n : NamespacedName) → S.get k n v ≡ S.get k n w)
      → IsStored literals image S cluster files refs hash w
      → IsStored literals image S cluster files refs hash v
  IsStored-same v w same c = record {
    service_account = rw (same ObjectKind.service_account _) c.service_account;
    role = rw (same ObjectKind.role _) c.role;
    role_binding = rw (same ObjectKind.role_binding _) c.role_binding;
    config_map = rw (same ObjectKind.config_map _) c.config_map;
    deployments =
        All-imp (λ ep h. rw (same ObjectKind.deployment _) h) (build_endpoints cluster)
          c.deployments;
    services =
        All-imp (λ ep h. rw (same ObjectKind.service _) h) (build_endpoints cluster) c.services;
    stale =
        All-imp
          (λ s (d, h). (rw (same ObjectKind.deployment _) d, rw (same ObjectKind.service _) h))
          (stale_suffixes cluster) c.stale;
    autoscalers =
        All-imp
          (λ ep h.
            subst (IsAsScaled cluster S ep ep.autoscale) (sym (same ObjectKind.autoscaler _)) h)
          (build_endpoints cluster) c.autoscalers;
    budget =
        subst (IsAsBudgeted S cluster literals cluster.spec.pdb)
          (sym (same ObjectKind.disruption_budget _)) c.budget;
  }

module _ {K : KubeTypes} (kube : Client K) (conditions : ConditionSetter) (S : Store K kube.World)
    (literals : Literals K) (image : String) (sorting : SliceSort) (hash : String → String)
    (sort_strings : List String → List String)
    (keeps : (k : ObjectKind) (n : NamespacedName) (c : RadiusCluster K) (w : kube.World)
      → S.get k n (kube.update_cluster c w).0 ≡ S.get k n w) where
  open kube use {World, get_cluster}

  -- No object differs.
  abbrev pub SameObjects : World → World → Type 0
  SameObjects v w = (k : ObjectKind) (n : NamespacedName) → S.get k n v ≡ S.get k n w

  finish-same :
      (w : World) (a : Result KubeError (RadiusCluster K))
      → SameObjects (finish kube conditions S literals image sorting hash sort_strings w a).0 w
  unfolding finish flush_cluster_status
  finish-same w (err e) k n = refl
  finish-same w (ok cluster) k n = keeps k n _ w

  report_status-same :
      (req : NamespacedName) (ready : ℤ) (w : World) (a : Result KubeError (RadiusCluster K))
      → SameObjects
          (report_status kube conditions S literals image sorting hash sort_strings req ready w a).0
          w
  unfolding report_status update_cluster_status
  report_status-same req ready w (err e) k n = refl
  report_status-same req ready w (ok cluster) k n = finish-same _ _ k n ∙ keeps k n _ w

  with_deployment-same :
      (req : NamespacedName) (w : World) (a : Result KubeError ℤ)
      → SameObjects
          (with_deployment kube conditions S literals image sorting hash sort_strings req w a).0
          w
  unfolding with_deployment
  with_deployment-same req w (err e) = finish-same w _
  with_deployment-same req w (ok ready) = report_status-same req ready w _

  pub with_objects-done :
      (req : NamespacedName) (cluster : RadiusCluster K) (r : World × Check KubeError)
      → (with_objects kube conditions S literals image sorting hash sort_strings req cluster r).1
        ≡ succeeded
      → (r.1 ≡ ok tt)
        × SameObjects
            (with_objects kube conditions S literals image sorting hash sort_strings req cluster
              r).0
            r.0
  unfolding with_objects
  with_objects-done req cluster (w, ok u) h = (refl, with_deployment-same req w _)
  with_objects-done req cluster (w, err e) h = cc

  pub with_files-fails :
      (req : NamespacedName) (cluster : RadiusCluster K) (clients : List RadiusClient) (w : World)
      (e : Error)
      → (with_files kube conditions S literals image sorting hash sort_strings req cluster clients w
          (err e)).1
        ≢ succeeded
  unfolding with_files
  with_files-fails req cluster clients w e h = elim (Bool-cases (is_invalid_error e)) [
    | inl b ↦ cc (rw b at h)
    | inr b ↦ cc (rw b at h)
  ]
