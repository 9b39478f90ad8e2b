-- ===== src/Controller/Steps/Calls.antt =====
-- How the steps of the reconciler of clusters call the store.
use freeradius_k8s_operator.Shared.{ok, err, Result, Check, ◌>>=◌}
use freeradius_k8s_operator.Api.Objects.{KubeTypes, RadiusCluster}
use freeradius_k8s_operator.Kube.{NamespacedName, KubeError}
use freeradius_k8s_operator.Controller.Objects.Store.{ObjectKind, Object, Store}

-- A step on a state that returns an error or none.
abbrev pub Step : Type 0 → Type 0
Step World = World → World × Check KubeError

-- One step after the other, unless the first one fails.
abbrev pub next_step :
    {World : Type 0} → World × Check KubeError → Step World → World × Check KubeError
next_step (w, ok done) next = next w
next_step (w, err e) next = (w, err e)

infixl 5 ◌then◌
abbrev pub ◌then◌ : {World : Type 0} → Step World → Step World → Step World
(first then next) w = next_step (first w) next

module _ {K : KubeTypes} {World : Type 0} (S : Store K World) where
  -- The function that `CreateOrUpdate` is given: the object is owned by the cluster, then changed.
  abbrev pub owned :
      {k : ObjectKind}
      → RadiusCluster K
      → (Object K S.Owners k → Object K S.Owners k)
      → Object K S.Owners k
      → Result KubeError (Object K S.Owners k)
  owned cluster change old = S.set_controller_reference cluster old.owners >>= λ owners.
      ok (change (record old { owners = owners }))

  -- An object that is found is deleted; one that cannot be read is left alone.
  unfoldable pub delete_found :
      (k : ObjectKind) → NamespacedName → Result KubeError (Object K S.Owners k) → Step World
  delete_found k name (ok found) w = S.delete k name w
  delete_found k name (err e) w = (w, ok tt)

  unfoldable pub delete_existing : ObjectKind → NamespacedName → Step World
  unfolding delete_found
  delete_existing k name w = delete_found k name (S.get k name w) w
