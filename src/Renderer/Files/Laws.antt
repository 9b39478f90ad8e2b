-- ===== src/Renderer/Files/Laws.antt =====
-- Reading a map back after assignments.
use freeradius_k8s_operator.Shared.{
  String, ◌≡◌, ◌≢◌, refl, [], ◌∷◌, none, some, if◌then◌else◌, ◌==◌, eq_iff, eq_refl, arith,
  Bool-cases, ◌∙◌, inl, inr,
}
use freeradius_k8s_operator.Renderer.Files.{ConfigFiles, lookup, assign, assign_all}

pub lookup-assign :
    (k j v : String) (m : ConfigFiles)
    → lookup j (assign k v m) ≡ (if k == j then some v else lookup j m)
unfolding lookup assign
lookup-assign k j v [] = refl
lookup-assign k j v ((i, w) ∷ m) =
    ground (arith, eq_iff k j, eq_iff i k, eq_iff i j, lookup-assign k j v m)

pub lookup-assign_self : (k v : String) (m : ConfigFiles) → lookup k (assign k v m) ≡ some v
lookup-assign_self k v m = simp (lookup-assign, eq_refl)

pub lookup-assign_ne :
    (k j v : String) (m : ConfigFiles) → k ≢ j → lookup j (assign k v m) ≡ lookup j m
lookup-assign_ne k j v m h = rw lookup-assign (ground (arith, eq_iff k j))

pub lookup-assign_all_none :
    (k : String) (from files : ConfigFiles)
    → lookup k from ≡ none
    → lookup k (assign_all from files) ≡ lookup k files
unfolding lookup assign_all
lookup-assign_all_none k [] files h = refl
lookup-assign_all_none k ((j, v) ∷ from) files h = elim (Bool-cases (j == k)) [
  | inl e ↦ cc (rw e at h)
  | inr e ↦
      lookup-assign j k v (assign_all from files)
      ∙ rw e (lookup-assign_all_none k from files (rw e at h))
]

pub lookup-assign_all-some :
    (k : String) (from files : ConfigFiles) {v : String}
    → lookup k from ≡ some v
    → lookup k (assign_all from files) ≡ some v
unfolding lookup assign_all
lookup-assign_all-some k [] files h = cc
lookup-assign_all-some k ((j, v) ∷ from) files h = elim (Bool-cases (j == k)) [
  | inl e ↦ lookup-assign j k v (assign_all from files) ∙ rw e (rw e at h)
  | inr e ↦
      lookup-assign j k v (assign_all from files)
      ∙ rw e (lookup-assign_all-some k from files (rw e at h))
]
