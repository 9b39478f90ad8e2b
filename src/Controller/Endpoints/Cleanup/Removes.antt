-- ===== src/Controller/Endpoints/Cleanup/Removes.antt =====
-- What the clean-up has removed when it succeeds.
use freeradius_k8s_operator.Shared.{
  String, ◌≡◌, ◌≢◌, refl, sym, subst, ◌∙◌, List, [], ◌∷◌, ◌++◌, ok, err, Result, Check, All,
  AreDistinct, Result-cases, inl, inr,
}
use freeradius_k8s_operator.Api.Objects.{KubeTypes, RadiusCluster}
use freeradius_k8s_operator.Kube.{
  NamespacedName, KubeError, not_found, Kind, deployment, service, ObjectClient,
}
use freeradius_k8s_operator.Controller.Endpoints.{build_endpoints, stale_suffixes}
use freeradius_k8s_operator.Controller.Endpoints.Names.{suffixes_of, build_endpoints-AreDistinct}
use freeradius_k8s_operator.Controller.Endpoints.Cleanup.{
  object_name, unless_not_found, and_then, delete_if_found, delete_both, cleanup_all,
  cleanup_stale_resources,
}
use freeradius_k8s_operator.Controller.Endpoints.Cleanup.Spares.{
  cleanup_all-spares, others, not_in-All,
}

AreDistinct-append : (xs ys : List String) → AreDistinct (xs ++ ys) → AreDistinct ys
AreDistinct-append [] ys h = h
AreDistinct-append (x ∷ xs) ys (a, h) = AreDistinct-append xs ys h

-- A request for the object fails.
abbrev pub IsAbsent : (kube : ObjectClient) → kube.World → Kind → NamespacedName → Type 0
IsAbsent kube w k n = (e : KubeError) × (kube.get k n w ≡ err e)

-- Neither object of a name is there.
abbrev pub AreAbsent : (kube : ObjectClient) → kube.World → NamespacedName → Type 0
AreAbsent kube w n = IsAbsent kube w deployment n × IsAbsent kube w service n

module _ (kube : ObjectClient)
    (spares : (k j : Kind) (n o : NamespacedName) (w : kube.World)
      → n ≢ o
      → kube.get j o (kube.delete k n w).0 ≡ kube.get j o w)
    (spares_kind : (n : NamespacedName) (w : kube.World)
      → kube.get deployment n (kube.delete service n w).0 ≡ kube.get deployment n w)
    (gone : (k : Kind) (n : NamespacedName) (w : kube.World)
      → unless_not_found kube (kube.delete k n w).1 ≡ ok tt
      → kube.get k n (kube.delete k n w).0 ≡ err not_found) where
  open kube use {World, get, delete}

  and_then-ok :
      (r : World × Check KubeError) (next : World → World × Check KubeError)
      → (and_then kube r next).1 ≡ ok tt
      → (r.1 ≡ ok tt) × (and_then kube r next ≡ next r.0) × ((next r.0).1 ≡ ok tt)
  and_then-ok (w, ok u) next h = (refl, refl, h)
  and_then-ok (w, err e) next h = cc

  delete_if_found-IsAbsent :
      (k : Kind) (n : NamespacedName) (w : World)
      → (delete_if_found kube k n w (get k n w)).1 ≡ ok tt
      → IsAbsent kube (delete_if_found kube k n w (get k n w)).0 k n
  unfolding delete_if_found
  delete_if_found-IsAbsent k n w h = elim (Result-cases (get k n w)) [
    | inl (u, e) ↦
        let g = gone k n w (rw (e, delete_if_found) at h) in rw (e, delete_if_found) (not_found, g)
    | inr (e, f) ↦ rw (f, delete_if_found) (e, f)
  ]

  service-spares :
      (n : NamespacedName) (w : World) (found : Result KubeError (kube.Found service))
      → get deployment n (delete_if_found kube service n w found).0 ≡ get deployment n w
  unfolding delete_if_found
  service-spares n w (err e) = refl
  service-spares n w (ok u) = spares_kind n w

  delete_both-AreAbsent :
      (n : NamespacedName) (w : World)
      → (delete_both kube n w).1 ≡ ok tt
      → AreAbsent kube (delete_both kube n w).0 n
  unfolding delete_both
  delete_both-AreAbsent n w h =
      let r = delete_if_found kube deployment n w (get deployment n w) in
      let (a, e, b) = and_then-ok r (λ v. delete_if_found kube service n v (get service n v)) h in
      let (d, p) = delete_if_found-IsAbsent deployment n w a in
      subst (λ (q : World × Check KubeError). AreAbsent kube q.0 n) (sym e)
        (
          (d, service-spares n r.0 (get service n r.0) ∙ p),
          delete_if_found-IsAbsent service n r.0 b,
        )

  module _ {K : KubeTypes} (cluster : RadiusCluster K) where
    cleanup_all-AreAbsent :
        (suffixes : List String) (w : World)
        → AreDistinct suffixes
        → (cleanup_all kube cluster suffixes w).1 ≡ ok tt
        → All
            (λ s. AreAbsent kube (cleanup_all kube cluster suffixes w).0 (object_name cluster s))
            suffixes
    unfolding cleanup_all
    cleanup_all-AreAbsent [] w d h = tt
    cleanup_all-AreAbsent (s ∷ ss) w (a, d) h =
        let r = delete_both kube (object_name cluster s) w in
        let (x, e, b) = and_then-ok r (cleanup_all kube cluster ss) h in
        let ((f, p), (g, q)) = delete_both-AreAbsent (object_name cluster s) w x in
        let keeps : (j : Kind)
            → get j (object_name cluster s) (cleanup_all kube cluster ss r.0).0
              ≡ get j (object_name cluster s) r.0 =
          λ j.
            cleanup_all-spares kube spares j (object_name cluster s) cluster ss r.0
              (others kube spares cluster s ss (not_in-All s ss a)) in
        subst
          (λ (v : World × Check KubeError).
            All (λ t. AreAbsent kube v.0 (object_name cluster t)) (s ∷ ss))
          (sym e)
          (((f, keeps deployment ∙ p), (g, keeps service ∙ q)), cleanup_all-AreAbsent ss r.0 d b)

    -- When deleting an object changes no object of another name, deleting a service changes no
    -- deployment, and an object whose deletion succeeds, or finds nothing, is gone, then after a
    -- clean-up that returns no error a request for any of the stale deployments and services fails.
    pub cleanup_stale_resources-AreAbsent :
        (w : World)
        → (cleanup_stale_resources kube cluster w).1 ≡ ok tt
        → All
            (λ s. AreAbsent kube (cleanup_stale_resources kube cluster w).0 (object_name cluster s))
            (stale_suffixes cluster)
    unfolding cleanup_stale_resources
    cleanup_stale_resources-AreAbsent w h =
        cleanup_all-AreAbsent (stale_suffixes cluster) w
          (AreDistinct-append (suffixes_of (build_endpoints cluster)) (stale_suffixes cluster)
            (build_endpoints-AreDistinct cluster))
          h
