-- ===== src/Controller/Endpoints/Cleanup/Spares.antt =====
-- What the clean-up leaves alone.
use freeradius_k8s_operator.Shared.{
  String, ◌≡◌, ◌≢◌, refl, sym, ap, ◌∙◌, true, false, List, [], ◌∷◌, ◌++◌, ok, err, Result, Check,
  append-cancel, is_in, All, AreDistinct, Bool-cases, inl, inr, ◌==◌, eq_iff,
}
use freeradius_k8s_operator.Api.Objects.{KubeTypes, RadiusCluster}
use freeradius_k8s_operator.Kube.{
  NamespacedName, KubeError, Kind, deployment, service, ObjectClient,
}
use freeradius_k8s_operator.Controller.Endpoints.{build_endpoints, stale_suffixes}
use freeradius_k8s_operator.Controller.Endpoints.Names.{suffixes_of, build_endpoints-AreDistinct}
use freeradius_k8s_operator.Controller.Endpoints.Cleanup.{
  object_name, and_then, delete_if_found, delete_both, cleanup_all, cleanup_stale_resources,
}

not_in-append : (s : String) (xs ys : List String) → is_in s (xs ++ ys) ≡ false → is_in s ys ≡ false
not_in-append s [] ys h = h
not_in-append s (x ∷ xs) ys h = elim (Bool-cases (s == x)) [
  | inl e ↦ cc (rw e at h)
  | inr e ↦ not_in-append s xs ys (rw e at h)
]

pub AreDistinct-apart :
    (s : String) (xs ys : List String)
    → AreDistinct (xs ++ ys)
    → is_in s xs ≡ true
    → is_in s ys ≡ false
AreDistinct-apart s [] ys d h = cc
AreDistinct-apart s (x ∷ xs) ys (a, d) h = elim (Bool-cases (s == x)) [
  | inl e ↦ not_in-append s xs ys (rw ((eq_iff s x).0 e) a)
  | inr e ↦ AreDistinct-apart s xs ys d (rw e at h)
]

pub not_in-All : (s : String) (ys : List String) → is_in s ys ≡ false → All (λ t. s ≢ t) ys
not_in-All s [] h = tt
not_in-All s (y ∷ ys) h = elim (Bool-cases (s == y)) [
  | inl e ↦ cc (rw e at h)
  | inr e ↦ (λ same. cc ((eq_iff s y).1 same), not_in-All s ys (rw e at h))
]

module _ (kube : ObjectClient)
    (spares : (k j : Kind) (n o : NamespacedName) (w : kube.World)
      → n ≢ o
      → kube.get j o (kube.delete k n w).0 ≡ kube.get j o w) where
  open kube use {World, get, delete}

  module _ (j : Kind) (o : NamespacedName) where
    delete_if_found-spares :
        (k : Kind) (n : NamespacedName) (w : World) (found : Result KubeError (kube.Found k))
        → n ≢ o
        → get j o (delete_if_found kube k n w found).0 ≡ get j o w
    unfolding delete_if_found
    delete_if_found-spares k n w (err e) h = refl
    delete_if_found-spares k n w (ok u) h = spares k j n o w h

    and_then-spares :
        (w : World) (r : World × Check KubeError) (next : World → World × Check KubeError)
        → get j o r.0 ≡ get j o w
        → ((v : World) → get j o (next v).0 ≡ get j o v)
        → get j o (and_then kube r next).0 ≡ get j o w
    and_then-spares w (v, ok u) next h k = k v ∙ h
    and_then-spares w (v, err e) next h k = h

    delete_both-spares :
        (n : NamespacedName) (w : World) → n ≢ o → get j o (delete_both kube n w).0 ≡ get j o w
    unfolding delete_both
    delete_both-spares n w h =
        and_then-spares w (delete_if_found kube deployment n w (get deployment n w))
          (λ v. delete_if_found kube service n v (get service n v))
          (delete_if_found-spares deployment n w (get deployment n w) h)
          (λ v. delete_if_found-spares service n v (get service n v) h)

    pub cleanup_all-spares :
        {K : KubeTypes} (cluster : RadiusCluster K) (suffixes : List String) (w : World)
        → All (λ s. object_name cluster s ≢ o) suffixes
        → get j o (cleanup_all kube cluster suffixes w).0 ≡ get j o w
    unfolding cleanup_all
    cleanup_all-spares cluster [] w h = refl
    cleanup_all-spares cluster (s ∷ ss) w (a, h) =
        and_then-spares w (delete_both kube (object_name cluster s) w) (cleanup_all kube cluster ss)
          (delete_both-spares (object_name cluster s) w a) (λ v. cleanup_all-spares cluster ss v h)

  object_name_injective :
      {K : KubeTypes} (cluster : RadiusCluster K) (s t : String)
      → object_name cluster s ≡ object_name cluster t
      → s ≡ t
  unfolding object_name
  object_name_injective cluster s t e =
      append-cancel cluster.meta.name s t (ap (λ (n : NamespacedName). n.name) e)

  pub others :
      {K : KubeTypes} (cluster : RadiusCluster K) (s : String) (ts : List String)
      → All (λ t. s ≢ t) ts
      → All (λ t. object_name cluster t ≢ object_name cluster s) ts
  others cluster s [] h = tt
  others cluster s (t ∷ ts) (a, h) =
      (λ e. a (sym (object_name_injective cluster t s e)), others cluster s ts h)

  -- When deleting an object changes no object of another name, the clean-up, whether it fails or
  -- not, changes neither the deployment nor the service of any endpoint of the cluster.
  pub cleanup_stale_resources-spares :
      {K : KubeTypes} (cluster : RadiusCluster K) (suffix : String) (j : Kind) (w : World)
      → is_in suffix (suffixes_of (build_endpoints cluster)) ≡ true
      → get j (object_name cluster suffix) (cleanup_stale_resources kube cluster w).0
        ≡ get j (object_name cluster suffix) w
  unfolding cleanup_stale_resources
  cleanup_stale_resources-spares cluster suffix j w h =
      cleanup_all-spares j (object_name cluster suffix) cluster (stale_suffixes cluster) w (
        others cluster suffix (stale_suffixes cluster) (
          not_in-All suffix (stale_suffixes cluster) (
            AreDistinct-apart suffix (suffixes_of (build_endpoints cluster))
              (stale_suffixes cluster) (build_endpoints-AreDistinct cluster) h)))
