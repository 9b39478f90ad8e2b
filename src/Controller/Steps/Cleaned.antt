-- ===== src/Controller/Steps/Cleaned.antt =====
-- The clean-up on the whole store: what it leaves of the endpoints' objects and of the stale ones.
use freeradius_k8s_operator.Shared.{
  ◌≡◌, ◌≢◌, refl, sym, true, List, [], ◌∷◌, ok, err, Check, inl, inr, All, All-imp, is_in, arith,
  eq_refl,
}
use freeradius_k8s_operator.Api.Objects.{KubeTypes, RadiusCluster}
use freeradius_k8s_operator.Kube.{NamespacedName, KubeError, not_found, failed, Kind}
use freeradius_k8s_operator.Controller.Endpoints.{EndpointDef, build_endpoints, stale_suffixes}
use freeradius_k8s_operator.Controller.Endpoints.Names.{suffixes_of}
use freeradius_k8s_operator.Controller.Endpoints.Cleanup.{
  object_name, unless_not_found, cleanup_stale_resources,
}
use freeradius_k8s_operator.Controller.Endpoints.Cleanup.Spares.{cleanup_stale_resources-spares}
use freeradius_k8s_operator.Controller.Endpoints.Cleanup.Removes.{
  AreAbsent, cleanup_stale_resources-AreAbsent,
}
use freeradius_k8s_operator.Controller.Objects.Store.{ObjectKind, Store, IsLawful}
use freeradius_k8s_operator.Controller.Steps.{object_kind, object_client}
use freeradius_k8s_operator.Controller.Steps.Laws.{IsMissing, Spares, Leaves}

-- What holds of the whole list after each successful run holds of each element so.
each_element :
    {A B : Type 0} (Q : A → B → Type 0) (Good : B → Type 0) (xs : List A)
    → ((w : B) → Good w → All (λ x. Q x w) xs)
    → All (λ x. (w : B) → Good w → Q x w) xs
each_element Q Good [] h = tt
each_element Q Good (x ∷ xs) h = (λ w g. (h w g).0, each_element Q Good xs (λ w g. (h w g).1))

own_suffixes : (eps : List EndpointDef) → All (λ e. is_in e.suffix (suffixes_of eps) ≡ true) eps
own_suffixes [] = tt
own_suffixes (e ∷ eps) =
    (ground (arith, eq_refl e.suffix), All-imp (λ f h. ground (arith, h)) eps (own_suffixes eps))

module _ {K : KubeTypes} (cluster : RadiusCluster K) {World : Type 0} (S : Store K World)
    (L : IsLawful K S) where
  spares :
      (k j : Kind) (n o : NamespacedName) (w : World)
      → n ≢ o
      → S.get (object_kind j) o (S.delete (object_kind k) n w).0 ≡ S.get (object_kind j) o w
  spares k j n o w h =
      L.get-delete_other (object_kind j) (object_kind k) o n w (inr (λ e. h (sym e)))

  gone_on :
      (k : ObjectKind) (n : NamespacedName) (w : World) (r : Check KubeError)
      → (S.delete k n w).1 ≡ r
      → unless_not_found (object_client S) r ≡ ok tt
      → S.get k n (S.delete k n w).0 ≡ err not_found
  gone_on k n w (ok tt) e h = L.get-delete k n w (inl e)
  gone_on k n w (err not_found) e h = L.get-delete k n w (inr e)
  gone_on k n w (err (failed m)) e h = cc

  pub cleanup-Spares :
      (j : Kind)
      → All
          (λ ep.
            Spares S
              (object_kind j)
              (object_name cluster ep.suffix)
              (cleanup_stale_resources (object_client S) cluster))
          (build_endpoints cluster)
  cleanup-Spares j =
      All-imp
        (λ ep h w. cleanup_stale_resources-spares (object_client S) spares cluster ep.suffix j w h)
        (build_endpoints cluster) (own_suffixes (build_endpoints cluster))

  pub cleanup-AreAbsent :
      (w : World)
      → (cleanup_stale_resources (object_client S) cluster w).1 ≡ ok tt
      → All
          (λ s.
            AreAbsent
              (object_client S)
              (cleanup_stale_resources (object_client S) cluster w).0
              (object_name cluster s))
          (stale_suffixes cluster)
  cleanup-AreAbsent w h =
      cleanup_stale_resources-AreAbsent (object_client S) spares
        (λ n w. L.get-delete_other ObjectKind.deployment ObjectKind.service n n w (inl (λ e. cc)))
        (λ k n w g. gone_on (object_kind k) n w _ refl g) cluster w h

  pub cleanup-Leaves :
      (j : Kind)
      → All
          (λ s.
            Leaves S
              (object_kind j)
              (object_name cluster s)
              (IsMissing S {k = object_kind j})
              (cleanup_stale_resources (object_client S) cluster))
          (stale_suffixes cluster)
  cleanup-Leaves Kind.deployment =
      each_element
        (λ s w. IsMissing S {k = ObjectKind.deployment} (
          S.get ObjectKind.deployment (object_name cluster s)
            (cleanup_stale_resources (object_client S) cluster w).0))
        _ (stale_suffixes cluster)
        (λ w h. All-imp (λ s a. a.0) (stale_suffixes cluster) (cleanup-AreAbsent w h))
  cleanup-Leaves Kind.service =
      each_element
        (λ s w. IsMissing S {k = ObjectKind.service} (
          S.get ObjectKind.service (object_name cluster s)
            (cleanup_stale_resources (object_client S) cluster w).0))
        _ (stale_suffixes cluster)
        (λ w h. All-imp (λ s a. a.1) (stale_suffixes cluster) (cleanup-AreAbsent w h))
