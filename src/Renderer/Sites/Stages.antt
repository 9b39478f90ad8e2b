-- ===== src/Renderer/Sites/Stages.antt =====
-- The policies of the rendered stages.
use mathlib.Core.List.{perm_middle}
use mathlib.Core.List.Perm
use freeradius_k8s_operator.Shared.{
  String, ◌≡◌, refl, sym, ap, subst, Bool, true, false, List, [], ◌∷◌, ◌++◌, map, ◌==◌, eq_iff,
  is_in, AreDistinct, keep, All, All-imp, arith, Perm, Bool-cases, All-of_mem, All-mem, inl, inr,
}
use freeradius_k8s_operator.Shared.Int.{ℤ, ◌≤ℤ◌, int_lt}
use freeradius_k8s_operator.Renderer.Types.{PolicySpec}
use freeradius_k8s_operator.Renderer.Sites.{
  StageData, by_priority, IsSorted, IsWeakOrder, SliceSort, valid_stages, by_stage, build_stages,
}

-- The policies of all stages, one stage behind the other.
abbrev pub all_policies : List StageData → List PolicySpec
all_policies [] = []
all_policies (s ∷ ss) = s.policies ++ all_policies ss

abbrev in_stages : List String → PolicySpec → Bool
in_stages stages p = is_in p.stage stages

-- A policy of the stage `s` is in none of the others.
keep-stage-perm :
    (s : String) (stages : List String) (ps : List PolicySpec)
    → is_in s stages ≡ false
    → Perm (by_stage s ps ++ keep (in_stages stages) ps) (keep (in_stages (s ∷ stages)) ps)
unfolding by_stage
keep-stage-perm s stages [] h = Perm.nil
keep-stage-perm s stages (p ∷ ps) h = elim (Bool-cases (p.stage == s)) [
  | inl e ↦
      let q : in_stages stages p ≡ false =
        subst (λ t. is_in t stages ≡ false) (sym ((eq_iff p.stage s).0 e)) h in
      rw (e, q) (Perm.cons p (keep-stage-perm s stages ps h))
  | inr e ↦ elim (Bool-cases (in_stages stages p)) [
    | inl q ↦
        rw (e, q)
          (Perm.trans (perm_middle (keep (λ x. x.stage == s) ps) (keep (in_stages stages) ps))
            (Perm.cons p (keep-stage-perm s stages ps h)))
    | inr q ↦ rw (e, q) (keep-stage-perm s stages ps h)
  ]
]

keep-none : (ps : List PolicySpec) → keep (in_stages []) ps ≡ []
keep-none [] = refl
keep-none (p ∷ ps) = keep-none ps

keep-All :
    (stages : List String) (ps : List PolicySpec)
    → All (λ p. is_in p.stage stages ≡ true) ps
    → keep (in_stages stages) ps ≡ ps
keep-All stages [] h = refl
keep-All stages (p ∷ ps) (q, h) = rw q (ap (◌∷◌ p) (keep-All stages ps h))

by_stage-stage :
    (s : String) (ps : List PolicySpec) → All (λ p. (p.stage == s) ≡ true) (by_stage s ps)
unfolding by_stage
by_stage-stage s [] = tt
by_stage-stage s (p ∷ ps) = elim (Bool-cases (p.stage == s)) [
  | inl e ↦ rw e (e, by_stage-stage s ps)
  | inr e ↦ rw e (by_stage-stage s ps)
]

-- No policy has a larger priority than one behind it.
abbrev pub IsAscending : List PolicySpec → Type 0
IsAscending [] = Unit
IsAscending (p ∷ ps) = All (λ q. p.priority ≤ℤ q.priority) ps × IsAscending ps

by_priority-IsWeakOrder : IsWeakOrder by_priority
unfolding by_priority
by_priority-IsWeakOrder = record {
  irreflexive = λ p. lt_irreflexive p.priority;
  transitive = λ p q r. lt_trans p.priority q.priority r.priority;
  negatively = λ p q r. not_lt_trans p.priority q.priority r.priority;
}
  where
    lt_irreflexive : (a : ℤ) → int_lt a a ≡ false
    lt_irreflexive a = ground arith

    lt_trans : (a b c : ℤ) → int_lt a b ≡ true → int_lt b c ≡ true → int_lt a c ≡ true
    lt_trans a b c h k = ground arith

    not_lt_trans : (a b c : ℤ) → int_lt a b ≡ false → int_lt b c ≡ false → int_lt a c ≡ false
    not_lt_trans a b c h k = ground arith

not_lt-≤ : (a b : ℤ) → int_lt a b ≡ false → b ≤ℤ a
not_lt-≤ a b h = ground arith

IsSorted-IsAscending : (ps : List PolicySpec) → IsSorted by_priority ps → IsAscending ps
unfolding by_priority
IsSorted-IsAscending [] h = tt
IsSorted-IsAscending (p ∷ ps) (h, k) =
    (All-imp (λ q e. not_lt-≤ q.priority p.priority e) ps h, IsSorted-IsAscending ps k)

module _ (sorting : SliceSort) where
  open sorting use {sort_slice, sort_slice-perm, sort_slice-IsSorted}

  stage_of : List PolicySpec → String → StageData
  stage_of ps stage = record { name = stage; policies = sort_slice by_priority (by_stage stage ps) }

  all_policies-perm :
      (stages : List String) (ps : List PolicySpec)
      → AreDistinct stages
      → Perm (all_policies (map (stage_of ps) stages)) (keep (in_stages stages) ps)
  unfolding stage_of
  all_policies-perm [] ps h = rw keep-none Perm.nil
  all_policies-perm (s ∷ ss) ps (p, h) =
      Perm.trans
        (Perm.append (sort_slice-perm by_priority (by_stage s ps)) (all_policies-perm ss ps h))
        (keep-stage-perm s ss ps p)

  -- When every policy is in a known stage, the stages hold exactly the given policies: none is
  -- lost, and none stands twice.
  pub build_stages-perm :
      (ps : List PolicySpec)
      → All (λ p. is_in p.stage valid_stages ≡ true) ps
      → Perm (all_policies (build_stages sorting ps)) ps
  unfolding build_stages valid_stages stage_of
  build_stages-perm ps h =
      subst (Perm (all_policies (map (stage_of ps) valid_stages))) (keep-All valid_stages ps h) (
        all_policies-perm valid_stages ps
          (refl, (refl, (refl, (refl, (refl, (refl, (refl, (refl, tt)))))))))

  -- A stage's policies: in order, and all of that stage.
  abbrev pub IsOrdered : StageData → Type 0
  IsOrdered s = IsAscending s.policies × All (λ p. p.stage ≡ s.name) s.policies

  stage_of-IsOrdered : (ps : List PolicySpec) (s : String) → IsOrdered (stage_of ps s)
  unfolding stage_of
  stage_of-IsOrdered ps s = (
    IsSorted-IsAscending (sort_slice by_priority (by_stage s ps))
        (sort_slice-IsSorted by_priority (by_stage s ps) by_priority-IsWeakOrder),
    All-of_mem _ (sort_slice by_priority (by_stage s ps)) (λ p m. (eq_iff p.stage s).0 (
        All-mem (λ q. q.stage == s) (by_stage s ps) (by_stage-stage s ps)
          (Perm.subset (sort_slice-perm by_priority (by_stage s ps)) p m))),
  )

  stages_of-IsOrdered :
      (ps : List PolicySpec) (stages : List String) → All IsOrdered (map (stage_of ps) stages)
  stages_of-IsOrdered ps [] = tt
  stages_of-IsOrdered ps (s ∷ ss) = (stage_of-IsOrdered ps s, stages_of-IsOrdered ps ss)

  -- When `sort.Slice` sorts by every strict weak order that it is given, the stages are those of the
  -- server, in its order; the policies of each are of that stage and stand by ascending priority.
  pub build_stages-IsOrdered :
      (ps : List PolicySpec)
      → (map (λ s. s.name) (build_stages sorting ps) ≡ valid_stages)
        × All IsOrdered (build_stages sorting ps)
  unfolding build_stages valid_stages stage_of
  build_stages-IsOrdered ps = (refl, stages_of-IsOrdered ps valid_stages)
