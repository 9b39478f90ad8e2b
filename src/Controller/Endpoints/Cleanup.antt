-- ===== src/Controller/Endpoints/Cleanup.antt =====
-- `cleanupStaleResources` of internal/controller/radiuscluster_controller.go.
pub mod Spares
pub mod Removes
use freeradius_k8s_operator.Shared.{
  String, ◌≡◌, ◌≢◌, refl, sym, ap, ◌∙◌, Bool, true, false, List, [], ◌∷◌, ◌++◌, map, ok, err,
  Result, Check, append, is_in, All, AreDistinct, Bool-cases, Result-cases, inl, inr, concat, ◌==◌,
  eq_iff, arith, ◌||◌,
}
use freeradius_k8s_operator.Api.Objects.{KubeTypes, RadiusCluster}
use freeradius_k8s_operator.Kube.{
  NamespacedName, KubeError, not_found, failed, Kind, deployment, service, ObjectClient,
}
use freeradius_k8s_operator.Controller.Endpoints.{build_endpoints, stale_suffixes}
use freeradius_k8s_operator.Controller.Endpoints.Names.{suffixes_of, build_endpoints-AreDistinct}

unfoldable pub object_name : {K : KubeTypes} → RadiusCluster K → String → NamespacedName
object_name cluster suffix = record {
  namespace = cluster.meta.namespace;
  name = append cluster.meta.name suffix;
}

module _ (kube : ObjectClient) where
  open kube use {World, Found, get, delete}

  -- An object that is gone when it is to be deleted is no error.
  abbrev pub unless_not_found : Check KubeError → Check KubeError
  unless_not_found (ok u) = ok u
  unless_not_found (err not_found) = ok tt
  unless_not_found (err (failed m)) = err (failed m)

  -- An object that cannot be read is left alone, whatever the reason.
  unfoldable pub delete_if_found :
      (kind : Kind)
      → NamespacedName
      → World
      → Result KubeError (Found kind)
      → World × Check KubeError
  delete_if_found kind name w (err e) = (w, ok tt)
  delete_if_found kind name w (ok found) =
      let (w', r) = delete kind name w in (w', unless_not_found r)

  -- The next step, unless this one failed.
  abbrev pub and_then :
      World × Check KubeError → (World → World × Check KubeError) → World × Check KubeError
  and_then (w, ok done) next = next w
  and_then (w, err e) next = (w, err e)

  -- The body of the loop: the deployment, then the service.
  unfoldable pub delete_both : NamespacedName → World → World × Check KubeError
  unfolding delete_if_found
  delete_both name w =
      and_then (delete_if_found deployment name w (get deployment name w))
        λ w'. delete_if_found service name w' (get service name w')

  unfoldable pub cleanup_all :
      {K : KubeTypes} → RadiusCluster K → List String → World → World × Check KubeError
  unfolding delete_both object_name
  cleanup_all cluster [] w = (w, ok tt)
  cleanup_all cluster (suffix ∷ suffixes) w =
      and_then (delete_both (object_name cluster suffix) w) (cleanup_all cluster suffixes)

  unfoldable pub cleanup_stale_resources :
      {K : KubeTypes} → RadiusCluster K → World → World × Check KubeError
  cleanup_stale_resources cluster w = cleanup_all cluster (stale_suffixes cluster) w
