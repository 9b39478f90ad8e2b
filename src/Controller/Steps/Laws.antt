-- ===== src/Controller/Steps/Laws.antt =====
-- What a step leaves of an object, and how that goes through a sequence of steps.
use freeradius_k8s_operator.Shared.{
  ◌≡◌, ◌≢◌, ◌⊎◌, refl, sym, subst, ◌∙◌, ok, err, Result, Check, Result-cases, inl, inr, >>=-eq-ok,
}
use freeradius_k8s_operator.Api.Objects.{KubeTypes, RadiusCluster}
use freeradius_k8s_operator.Kube.{NamespacedName, KubeError, not_found}
use freeradius_k8s_operator.Controller.Objects.Store.{ObjectKind, Content, Object, Store, IsLawful}
use freeradius_k8s_operator.Controller.Steps.Calls.{
  Step, next_step, ◌then◌, owned, delete_found, delete_existing,
}

ok_injective : {A : Type 0} {a b : A} → ◌≡◌ {A = Result KubeError A} (ok a) (ok b) → a ≡ b
ok_injective h = cc

pub next_step-ok :
    {World : Type 0} (r : World × Check KubeError) (next : Step World)
    → (next_step r next).1 ≡ ok tt
    → (r.1 ≡ ok tt) × (next_step r next ≡ next r.0) × ((next r.0).1 ≡ ok tt)
next_step-ok (w, ok done) next h = (refl, refl, h)
next_step-ok (w, err e) next h = cc

module _ {K : KubeTypes} {World : Type 0} (S : Store K World) where
  -- What a request for an object can be answered.
  abbrev pub Answer : ObjectKind → Type 0
  Answer k = Result KubeError (Object K S.Owners k)

  -- The object is there, and the predicate holds of it.
  abbrev pub Holds : {k : ObjectKind} → (Object K S.Owners k → Type 0) → Answer k → Type 0
  Holds {k} P a = (o : Object K S.Owners k) × (a ≡ ok o) × P o

  -- The cluster was made an owner.
  abbrev pub IsOwned : RadiusCluster K → S.Owners → Type 0
  IsOwned cluster new = (old : S.Owners) × (S.set_controller_reference cluster old ≡ ok new)

  -- The object is the cluster's and has the content.
  abbrev pub Has : RadiusCluster K → (k : ObjectKind) → Content K k → Answer k → Type 0
  Has cluster k c = Holds {k = k} λ o. (o.content ≡ c) × IsOwned cluster o.owners

  -- The request fails.
  abbrev pub IsMissing : {k : ObjectKind} → Answer k → Type 0
  IsMissing a = (e : KubeError) × (a ≡ err e)

  -- The step does not touch the object.
  abbrev pub Spares : ObjectKind → NamespacedName → Step World → Type 0
  Spares k n step = (w : World) → S.get k n (step w).0 ≡ S.get k n w

  -- When the step returns no error, the request for the object is answered so.
  abbrev pub Leaves : (k : ObjectKind) → NamespacedName → (Answer k → Type 0) → Step World → Type 0
  Leaves k n Q step = (w : World) → (step w).1 ≡ ok tt → Q (S.get k n (step w).0)

  module _ (k : ObjectKind) (n : NamespacedName) where
    next_step-Spares :
        (w : World) (r : World × Check KubeError) (next : Step World)
        → S.get k n r.0 ≡ S.get k n w
        → Spares k n next
        → S.get k n (next_step r next).0 ≡ S.get k n w
    next_step-Spares w (v, ok done) next h s = s v ∙ h
    next_step-Spares w (v, err e) next h s = h

    pub then-Spares :
        (first next : Step World)
        → Spares k n first
        → Spares k n next
        → Spares k n (first then next)
    then-Spares first next h s w = next_step-Spares w (first w) next (h w) s

    -- What the second step leaves.
    pub then-Leaves :
        (Q : Answer k → Type 0) (first next : Step World)
        → Leaves k n Q next
        → Leaves k n Q (first then next)
    then-Leaves Q first next h w done =
        let (a, same, b) = next_step-ok (first w) next done in
        subst (λ (r : World × Check KubeError). Q (S.get k n r.0)) (sym same) (h (first w).0 b)

    -- What the first step leaves, if the second one does not touch it.
    pub then-Leaves_first :
        (Q : Answer k → Type 0) (first next : Step World)
        → Leaves k n Q first
        → Spares k n next
        → Leaves k n Q (first then next)
    then-Leaves_first Q first next h s w done =
        let (a, same, b) = next_step-ok (first w) next done in
        subst (λ (r : World × Check KubeError). Q (S.get k n r.0)) (sym same)
          (subst Q (sym (s (first w).0)) (h w a))

  module _ (L : IsLawful K S) where
    pub create-Spares :
        (j k : ObjectKind) (m n : NamespacedName)
        (f : Object K S.Owners k → Result KubeError (Object K S.Owners k))
        → (j ≢ k) ⊎ (m ≢ n)
        → Spares j m (S.create_or_update k n f)
    create-Spares j k m n f h w = L.get-create_or_update_other j k m n f w h

    -- What the change makes of every object that the cluster owns holds of the stored one.
    pub create-Holds :
        (k : ObjectKind) (n : NamespacedName) (cluster : RadiusCluster K)
        (change : Object K S.Owners k → Object K S.Owners k) (P : Object K S.Owners k → Type 0)
        → ((o : Object K S.Owners k) → IsOwned cluster o.owners → P (change o))
        → Leaves k n (Holds {k = k} P) (S.create_or_update k n (owned S cluster change))
    create-Holds k n cluster change P h w done =
        let (old, new, made, found) = L.get-create_or_update k n (owned S cluster change) w done in
        let (owners, o, same) = >>=-eq-ok (S.set_controller_reference cluster old.owners) _ made in
        (
          new,
          found,
          subst P (ok_injective same) (h (record old { owners = owners }) (old.owners, o)),
        )

    -- An object that is created or updated is the cluster's, and has the content that the change
    -- gives it, if the change leaves the owners alone.
    pub create-Leaves :
        (k : ObjectKind) (n : NamespacedName) (cluster : RadiusCluster K)
        (change : Object K S.Owners k → Object K S.Owners k) (c : Content K k)
        → ((o : Object K S.Owners k) → ((change o).content ≡ c) × ((change o).owners ≡ o.owners))
        → Leaves k n (Has cluster k c) (S.create_or_update k n (owned S cluster change))
    create-Leaves k n cluster change c h =
        create-Holds k n cluster change _ λ o w. ((h o).0, subst (IsOwned cluster) (sym (h o).1) w)

    delete_found-Spares :
        (j k : ObjectKind) (m n : NamespacedName) (a : Answer k)
        → (j ≢ k) ⊎ (m ≢ n)
        → Spares j m (delete_found S k n a)
    unfolding delete_found
    delete_found-Spares j k m n (ok o) h w = L.get-delete_other j k m n w h
    delete_found-Spares j k m n (err e) h w = refl

    pub delete-Spares :
        (j k : ObjectKind) (m n : NamespacedName)
        → (j ≢ k) ⊎ (m ≢ n)
        → Spares j m (delete_existing S k n)
    unfolding delete_existing
    delete-Spares j k m n h w = delete_found-Spares j k m n (S.get k n w) h w

    pub delete-Leaves :
        (k : ObjectKind) (n : NamespacedName) → Leaves k n IsMissing (delete_existing S k n)
    unfolding delete_existing
    delete-Leaves k n w done = elim (Result-cases (S.get k n w)) [
      | inl (o, e) ↦
          rw (e, delete_found) (not_found, L.get-delete k n w (inl (rw (e, delete_found) at done)))
      | inr (e, f) ↦ rw (f, delete_found) (e, f)
    ]
