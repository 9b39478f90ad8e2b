-- ===== src/Controller/Clusters/Triggers.antt =====
-- Which clusters a change of a client or a policy makes the operator look at again.
use freeradius_k8s_operator.Shared.{
  String, ◌≡◌, ◌≢◌, ◌↔◌, refl, sym, ap, List, [], ◌∷◌, is_empty, ◌==◌, eq_iff, Bool-cases, inl, inr,
}
use freeradius_k8s_operator.Api.Objects.{RadiusClient, RadiusPolicy}
use freeradius_k8s_operator.Kube.{NamespacedName}
use freeradius_k8s_operator.Controller.Secrets.{matching_clients, matching_policies}
use freeradius_k8s_operator.Controller.Clusters.{
  a_client, a_policy, owner_request, enqueue_owning_cluster,
}

abbrev first_name : List NamespacedName → String
first_name [] = ""
first_name (n ∷ ns) = n.name

owner_request_iff :
    (namespace ref name : String)
    → name ≢ ""
    → (owner_request namespace ref ≡ record { namespace = namespace; name = name } ∷ [])
      ↔ (ref ≡ name)
unfolding owner_request
owner_request_iff namespace ref name h = (forth, back)
  where
    forth :
        owner_request namespace ref ≡ record { namespace = namespace; name = name } ∷ []
        → ref ≡ name
    forth e = elim (Bool-cases (is_empty ref)) [
      | inl b ↦ absurd (h (sym (ap first_name (rw b at e))))
      | inr b ↦ ap first_name (rw b at e)
    ]

    back :
        ref ≡ name
        → owner_request namespace ref ≡ record { namespace = namespace; name = name } ∷ []
    back e = rw e (elim (Bool-cases (is_empty name)) [
      | inl b ↦ absurd (h ((eq_iff name "").0 b))
      | inr b ↦ rw b refl
    ])

matching_clients_iff :
    (name : String) (c : RadiusClient)
    → (matching_clients name (c ∷ []) ≡ c ∷ []) ↔ (c.spec.cluster_ref ≡ name)
unfolding matching_clients
matching_clients_iff name c = elim (Bool-cases (c.spec.cluster_ref == name)) [
  | inl e ↦ rw e (λ h. (eq_iff c.spec.cluster_ref name).0 e, λ h. refl)
  | inr e ↦ rw e (λ h. cc, λ h. cc ((eq_iff c.spec.cluster_ref name).1 h))
]

matching_policies_iff :
    (name : String) (p : RadiusPolicy)
    → (matching_policies name (p ∷ []) ≡ p ∷ []) ↔ (p.spec.cluster_ref ≡ name)
unfolding matching_policies
matching_policies_iff name p = elim (Bool-cases (p.spec.cluster_ref == name)) [
  | inl e ↦ rw e (λ h. (eq_iff p.spec.cluster_ref name).0 e, λ h. refl)
  | inr e ↦ rw e (λ h. cc, λ h. cc ((eq_iff p.spec.cluster_ref name).1 h))
]

-- For a name that is not empty, a change of a client, and one of a policy, makes the operator look
-- again at the cluster of that name in the same namespace exactly when the reconciler of the cluster
-- takes the client, or the policy, for one of the cluster's own.
pub enqueue_owning_cluster-matches :
    (name : String)
    → name ≢ ""
    → ((c : RadiusClient)
        → (enqueue_owning_cluster (a_client c)
            ≡ record { namespace = c.meta.namespace; name = name } ∷ [])
          ↔ (matching_clients name (c ∷ []) ≡ c ∷ []))
      × ((p : RadiusPolicy)
          → (enqueue_owning_cluster (a_policy p)
              ≡ record { namespace = p.meta.namespace; name = name } ∷ [])
            ↔ (matching_policies name (p ∷ []) ≡ p ∷ []))
unfolding enqueue_owning_cluster
enqueue_owning_cluster-matches name h = (
  λ c.
      let (a, b) = owner_request_iff c.meta.namespace c.spec.cluster_ref name h in
      let (m, n) = matching_clients_iff name c in (λ e. n (a e), λ e. b (m e)),
  λ p.
      let (a, b) = owner_request_iff p.meta.namespace p.spec.cluster_ref name h in
      let (m, n) = matching_policies_iff name p in (λ e. n (a e), λ e. b (m e)),
)
