-- ===== src/Renderer/Sites/Sorting.antt =====
-- An insertion sort: one way in which `sort.Slice` can behave.
use mathlib.Core.List.Perm
use freeradius_k8s_operator.Shared.{
  ◌≡◌, Bool, true, false, List, [], ◌∷◌, if◌then◌else◌, All, All-imp, Perm, Bool-cases, inl, inr,
}
use freeradius_k8s_operator.Renderer.Types.{PolicySpec}
use freeradius_k8s_operator.Renderer.Sites.{IsSorted, IsWeakOrder, SliceSort}

module _ (less : PolicySpec → PolicySpec → Bool) where
  abbrev pub insert : PolicySpec → List PolicySpec → List PolicySpec
  insert p [] = p ∷ []
  insert p (q ∷ qs) = let rest = insert p qs in if less q p then q ∷ rest else p ∷ q ∷ qs

  abbrev pub sort : List PolicySpec → List PolicySpec
  sort [] = []
  sort (p ∷ ps) = insert p (sort ps)

  insert-perm : (p : PolicySpec) (ps : List PolicySpec) → Perm (insert p ps) (p ∷ ps)
  insert-perm p [] = Perm.refl (p ∷ [])
  insert-perm p (q ∷ qs) = elim (Bool-cases (less q p)) [
    | inl e ↦ rw e (Perm.trans (Perm.cons q (insert-perm p qs)) (Perm.swap p q qs))
    | inr e ↦ rw e (Perm.refl (p ∷ q ∷ qs))
  ]

  pub sort-perm : (ps : List PolicySpec) → Perm (sort ps) ps
  sort-perm [] = Perm.nil
  sort-perm (p ∷ ps) = Perm.trans (insert-perm p (sort ps)) (Perm.cons p (sort-perm ps))

  insert-All :
      (P : PolicySpec → Type 0) (p : PolicySpec) (ps : List PolicySpec)
      → P p
      → All P ps
      → All P (insert p ps)
  insert-All P p [] h k = (h, tt)
  insert-All P p (q ∷ qs) h (k, ks) = elim (Bool-cases (less q p)) [
    | inl e ↦ rw e (k, insert-All P p qs h ks)
    | inr e ↦ rw e (h, (k, ks))
  ]

  module _ (w : IsWeakOrder less) where
    asymmetric : (p q : PolicySpec) → less q p ≡ true → less p q ≡ false
    asymmetric p q h = elim (Bool-cases (less p q)) [
      | inl e ↦ cc (w.irreflexive p, w.transitive p q p e h)
      | inr e ↦ e
    ]

    insert-IsSorted :
        (p : PolicySpec) (ps : List PolicySpec) → IsSorted less ps → IsSorted less (insert p ps)
    insert-IsSorted p [] h = (tt, tt)
    insert-IsSorted p (q ∷ qs) (k, ks) = elim (Bool-cases (less q p)) [
      | inl e ↦
          rw e
            (insert-All (λ x. less x q ≡ false) p qs (asymmetric p q e) k, insert-IsSorted p qs ks)
      | inr e ↦ rw e ((e, All-imp (λ x l. w.negatively x q p l e) qs k), (k, ks))
    ]

    pub sort-IsSorted : (ps : List PolicySpec) → IsSorted less (sort ps)
    sort-IsSorted [] = tt
    sort-IsSorted (p ∷ ps) = insert-IsSorted p (sort ps) (sort-IsSorted ps)

abbrev pub insertion : SliceSort
insertion = record {
  sort_slice = sort;
  sort_slice-perm = sort-perm;
  sort_slice-IsSorted = λ less ps w. sort-IsSorted less w ps;
}
