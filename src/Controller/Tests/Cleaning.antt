-- ===== src/Controller/Tests/Cleaning.antt =====
-- The theorems on the clean-up, on a state that says of each object whether it is there.
use freeradius_k8s_operator.Shared.{
  ◌≡◌, ◌≢◌, refl, Bool, true, false, ◌&&◌, ok, err, Check, if◌then◌else◌, ◌==◌, eq_iff, eq_refl,
  All, append, Bool-cases, inl, inr,
}
use freeradius_k8s_operator.Kube.{
  NamespacedName, KubeError, not_found, Kind, deployment, service, ObjectClient,
}
use freeradius_k8s_operator.Controller.Endpoints.{
  endpoints_of, split_endpoints, build_endpoints, stale_suffixes_of, stale_suffixes,
}
use freeradius_k8s_operator.Controller.Endpoints.Cleanup.{
  object_name, unless_not_found, delete_if_found, delete_both, cleanup_all, cleanup_stale_resources,
}
use freeradius_k8s_operator.Controller.Endpoints.Cleanup.Spares.{cleanup_stale_resources-spares}
use freeradius_k8s_operator.Controller.Endpoints.Cleanup.Removes.{
  AreAbsent, cleanup_stale_resources-AreAbsent,
}
use freeradius_k8s_operator.Controller.Tests.{cluster}

abbrev Objects : Type 0
Objects = Kind → NamespacedName → Bool

abbrev kind_eq : Kind → Kind → Bool
kind_eq deployment deployment = true
kind_eq service service = true
kind_eq _ _ = false

abbrev same : Kind → NamespacedName → Kind → NamespacedName → Bool
same k n j o = (n.namespace == o.namespace) && ((n.name == o.name) && kind_eq k j)

abbrev answer : Bool → Check KubeError
answer b = if b then ok tt else err not_found

abbrev kube : ObjectClient
kube = record {
  World = Objects;
  Found = λ k. Unit;
  get = λ k n w. answer (w k n);
  delete = λ k n w. ((λ j o. if same k n j o then false else w j o), answer (w k n));
}

spares :
    (k j : Kind) (n o : NamespacedName) (w : Objects)
    → n ≢ o
    → kube.get j o (kube.delete k n w).0 ≡ kube.get j o w
spares k j n o w h = elim (Bool-cases (n.namespace == o.namespace)) [
  | inr a ↦ rw a refl
  | inl a ↦ elim (Bool-cases (n.name == o.name)) [
    | inr b ↦ rw (a, b) refl
    | inl b ↦ absurd (
        h λ i. record {
          namespace = (eq_iff n.namespace o.namespace).0 a i;
          name = (eq_iff n.name o.name).0 b i;
        })
  ]
]

spares_kind :
    (n : NamespacedName) (w : Objects)
    → kube.get deployment n (kube.delete service n w).0 ≡ kube.get deployment n w
spares_kind n w = simp (eq_refl n.namespace, eq_refl n.name) refl

gone :
    (k : Kind) (n : NamespacedName) (w : Objects)
    → unless_not_found kube (kube.delete k n w).1 ≡ ok tt
    → kube.get k n (kube.delete k n w).0 ≡ err not_found
gone deployment n w h = simp (eq_refl n.namespace, eq_refl n.name) refl
gone service n w h = simp (eq_refl n.namespace, eq_refl n.name) refl

-- Every object is there.
abbrev full : Objects
full k n = true

cleanup_stale_resources-spares_example :
    kube.get service
      (object_name cluster "-freeradius-auth")
      (cleanup_stale_resources kube cluster full).0
    ≡ kube.get service (object_name cluster "-freeradius-auth") full
unfolding build_endpoints endpoints_of split_endpoints
cleanup_stale_resources-spares_example =
    cleanup_stale_resources-spares kube spares cluster "-freeradius-auth" service full refl

cleanup_stale_resources-AreAbsent_example :
    All
      (λ s. AreAbsent kube (cleanup_stale_resources kube cluster full).0 (object_name cluster s))
      (stale_suffixes cluster)
unfolding cleanup_stale_resources cleanup_all delete_both delete_if_found object_name stale_suffixes
    stale_suffixes_of append
cleanup_stale_resources-AreAbsent_example =
    cleanup_stale_resources-AreAbsent kube spares spares_kind gone cluster full refl
