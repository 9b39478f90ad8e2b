-- ===== src/Renderer/Conditions/Structure.antt =====
-- The expression that a rendered condition prints, and its structure.
use freeradius_k8s_operator.Shared.{
  ◌≡◌, refl, ap, ◌∙◌, Bool, true, false, List, [], ◌∷◌, ◌++◌, map, Option, none, some, All,
  All-append, map-append,
}
use freeradius_k8s_operator.Renderer.Types.{MatchLeaf, PolicyMatch}
use freeradius_k8s_operator.Renderer.Conditions.{group, join_groups, build_condition}
use freeradius_k8s_operator.Renderer.Conditions.Meaning.{
  Expr, truth, conj, print, IsTerm, of_truth, of_atom, of_negation, of_paren_conj, of_paren_disj,
  IsConj, last_conj, more_conj, IsDisj, last_disj, more_disj, leaf_term, conj_chain, disj_chain,
  conj_group, disj_group, print-conj_group, print-disj_group,
}

leaf_term-IsTerm : (negate : Bool) (l : MatchLeaf) → IsTerm (leaf_term negate l)
unfolding leaf_term
leaf_term-IsTerm true l = of_negation of_atom
leaf_term-IsTerm false l = of_atom

conj_chain-IsConj :
    (negate : Bool) (l : MatchLeaf) (ls : List MatchLeaf) → IsConj (conj_chain negate l ls)
unfolding conj_chain
conj_chain-IsConj negate l [] = last_conj (leaf_term-IsTerm negate l)
conj_chain-IsConj negate l (k ∷ ks) =
    more_conj (leaf_term-IsTerm negate l) (conj_chain-IsConj negate k ks)

disj_chain-IsDisj : (l : MatchLeaf) (ls : List MatchLeaf) → IsDisj (disj_chain l ls)
unfolding disj_chain
disj_chain-IsDisj l [] = last_disj of_atom
disj_chain-IsDisj l (k ∷ ks) = more_disj of_atom (disj_chain-IsDisj k ks)

conj_group-IsTerm :
    (negate : Bool) (l : MatchLeaf) (ls : List MatchLeaf) → IsTerm (conj_group negate l ls)
unfolding conj_group
conj_group-IsTerm negate l [] = leaf_term-IsTerm negate l
conj_group-IsTerm negate l (k ∷ ks) = of_paren_conj (conj_chain-IsConj negate l (k ∷ ks))

disj_group-IsTerm : (l : MatchLeaf) (ls : List MatchLeaf) → IsTerm (disj_group l ls)
unfolding disj_group
disj_group-IsTerm l [] = of_atom
disj_group-IsTerm l (k ∷ ks) = of_paren_disj (disj_chain-IsDisj l (k ∷ ks))

-- The groups of a match.
unfoldable pub conj_groups : Bool → List MatchLeaf → List Expr
conj_groups negate [] = []
conj_groups negate (l ∷ ls) = conj_group negate l ls ∷ []

unfoldable pub disj_groups : List MatchLeaf → List Expr
disj_groups [] = []
disj_groups (l ∷ ls) = disj_group l ls ∷ []

unfoldable pub conj_all : List Expr → Expr
conj_all [] = truth
conj_all (g ∷ []) = g
conj_all (g ∷ gs) = conj g (conj_all gs)

unfoldable pub groups_of : PolicyMatch → List Expr
groups_of m = conj_groups false m.all ++ (disj_groups m.any ++ conj_groups true m.none)

-- The expression that a condition prints.
unfoldable pub condition_expr : Option PolicyMatch → Expr
condition_expr none = truth
condition_expr (some m) = conj_all (groups_of m)

print-conj_all : (gs : List Expr) → print (conj_all gs) ≡ join_groups (map print gs)
unfolding print conj_all join_groups
print-conj_all [] = refl
print-conj_all (g ∷ []) = refl
print-conj_all (g ∷ h ∷ []) = refl
print-conj_all (g ∷ h ∷ k ∷ gs) = rw (print-conj_all (h ∷ k ∷ gs))

map-conj_groups :
    (negate : Bool) (ls : List MatchLeaf)
    → map print (conj_groups negate ls) ≡ group ls " && " negate
unfolding conj_groups group
map-conj_groups negate [] = refl
map-conj_groups negate (l ∷ ls) = rw (print-conj_group negate l ls)

map-disj_groups : (ls : List MatchLeaf) → map print (disj_groups ls) ≡ group ls " || " false
unfolding disj_groups group
map-disj_groups [] = refl
map-disj_groups (l ∷ ls) = rw (print-disj_group l ls)

pub print-condition_expr : (m : Option PolicyMatch) → print (condition_expr m) ≡ build_condition m
unfolding condition_expr build_condition groups_of print
print-condition_expr none = refl
print-condition_expr (some m) =
    print-conj_all (groups_of m)
    ∙ ap join_groups (
        map-append print (conj_groups false m.all) _
        ∙ rw (
          map-append,
          map-conj_groups false m.all,
          map-disj_groups m.any,
          map-conj_groups true m.none,
        ))

conj_all-IsConj : (gs : List Expr) → All IsTerm gs → IsConj (conj_all gs)
unfolding conj_all
conj_all-IsConj [] h = last_conj of_truth
conj_all-IsConj (g ∷ []) h = last_conj h.0
conj_all-IsConj (g ∷ k ∷ gs) (p, h) = more_conj p (conj_all-IsConj (k ∷ gs) h)

conj_groups-IsTerm : (negate : Bool) (ls : List MatchLeaf) → All IsTerm (conj_groups negate ls)
unfolding conj_groups
conj_groups-IsTerm negate [] = tt
conj_groups-IsTerm negate (l ∷ ls) = (conj_group-IsTerm negate l ls, tt)

disj_groups-IsTerm : (ls : List MatchLeaf) → All IsTerm (disj_groups ls)
unfolding disj_groups
disj_groups-IsTerm [] = tt
disj_groups-IsTerm (l ∷ ls) = (disj_group-IsTerm l ls, tt)

pub condition_expr-IsConj : (m : Option PolicyMatch) → IsConj (condition_expr m)
unfolding condition_expr groups_of
condition_expr-IsConj none = last_conj of_truth
condition_expr-IsConj (some m) = conj_all-IsConj (groups_of m) (
    All-append IsTerm (conj_groups false m.all) _ (conj_groups-IsTerm false m.all) (
      All-append IsTerm (disj_groups m.any) _ (disj_groups-IsTerm m.any)
        (conj_groups-IsTerm true m.none)))
