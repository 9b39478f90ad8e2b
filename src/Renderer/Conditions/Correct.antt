-- ===== src/Renderer/Conditions/Correct.antt =====
-- The rendered condition of a policy means what the match says.
use freeradius_k8s_operator.Shared.{
  ◌≡◌, refl, sym, ◌∙◌, Bool, true, false, ◌&&◌, not, List, [], ◌∷◌, ◌++◌, Option, none, some, arith,
  any, all, if◌then◌else◌,
}
use freeradius_k8s_operator.Renderer.Types.{MatchLeaf, PolicyMatch}
use freeradius_k8s_operator.Renderer.Conditions.{build_condition}
use freeradius_k8s_operator.Renderer.Conditions.Meaning.{
  Expr, print, eval, IsConj, some_of, holds, leaf_term, conj_chain, disj_chain, conj_group,
  disj_group,
}
use freeradius_k8s_operator.Renderer.Conditions.Structure.{
  conj_groups, disj_groups, conj_all, groups_of, condition_expr, print-condition_expr,
  condition_expr-IsConj,
}

module _ (v : MatchLeaf → Bool) where
  -- The value of a leaf in a negated or plain group.
  signed : Bool → MatchLeaf → Bool
  signed negate l = if negate then not (v l) else v l

  eval-leaf_term : (negate : Bool) (l : MatchLeaf) → eval v (leaf_term negate l) ≡ signed negate l
  unfolding eval leaf_term signed
  eval-leaf_term true l = refl
  eval-leaf_term false l = refl

  eval-conj_chain :
      (negate : Bool) (l : MatchLeaf) (ls : List MatchLeaf)
      → eval v (conj_chain negate l ls) ≡ all (signed negate) (l ∷ ls)
  unfolding eval conj_chain
  eval-conj_chain negate l [] = eval-leaf_term negate l ∙ ground arith
  eval-conj_chain negate l (k ∷ ks) = rw (eval-leaf_term negate l, eval-conj_chain negate k ks)

  eval-disj_chain :
      (l : MatchLeaf) (ls : List MatchLeaf) → eval v (disj_chain l ls) ≡ any v (l ∷ ls)
  unfolding eval disj_chain
  eval-disj_chain l [] = ground arith
  eval-disj_chain l (k ∷ ks) = rw (eval-disj_chain k ks)

  all_eval : List Expr → Bool
  all_eval gs = all (eval v) gs

  eval-conj_all : (gs : List Expr) → eval v (conj_all gs) ≡ all_eval gs
  unfolding eval conj_all all_eval
  eval-conj_all [] = refl
  eval-conj_all (g ∷ []) = ground arith
  eval-conj_all (g ∷ k ∷ gs) = rw (eval-conj_all (k ∷ gs))

  all-append : (gs hs : List Expr) → all_eval (gs ++ hs) ≡ (all_eval gs && all_eval hs)
  unfolding all_eval
  all-append [] hs = refl
  all-append (g ∷ gs) hs = ground (arith, all-append gs hs)

  eval-conj_group :
      (negate : Bool) (l : MatchLeaf) (ls : List MatchLeaf)
      → eval v (conj_group negate l ls) ≡ all (signed negate) (l ∷ ls)
  unfolding conj_group eval conj_chain
  eval-conj_group negate l [] = eval-conj_chain negate l []
  eval-conj_group negate l (k ∷ ks) = eval-conj_chain negate l (k ∷ ks)

  all-conj_groups :
      (negate : Bool) (ls : List MatchLeaf)
      → all_eval (conj_groups negate ls) ≡ all (signed negate) ls
  unfolding conj_groups all_eval
  all-conj_groups negate [] = refl
  all-conj_groups negate (l ∷ ls) = ground (arith, eval-conj_group negate l ls)

  all-disj_groups : (ls : List MatchLeaf) → all_eval (disj_groups ls) ≡ some_of v ls
  unfolding disj_groups all_eval some_of disj_group eval
  all-disj_groups [] = refl
  all-disj_groups (l ∷ []) = ground arith
  all-disj_groups (l ∷ k ∷ ks) = ground (arith, eval-disj_chain l (k ∷ ks))

  eval-condition_expr : (m : Option PolicyMatch) → eval v (condition_expr m) ≡ holds v m
  unfolding condition_expr groups_of eval holds signed
  eval-condition_expr none = refl
  eval-condition_expr (some m) =
      eval-conj_all (groups_of m)
      ∙ (all-append (conj_groups false m.all) _
          ∙ rw (
            all-append (disj_groups m.any) (conj_groups true m.none),
            all-conj_groups false m.all,
            all-disj_groups m.any,
            all-conj_groups true m.none,
          ))

-- A rendered condition is the text of the expression of its match: the group of `all` joined by
-- `&&`, that of `any` by `||` and the negated ones of `none` by `&&`, several groups joined by `&&`,
-- and `true` without a group. In that expression no `&&` stands beside a `||`, nor either under a `!`,
-- without parentheses between them. Whatever the comparisons yield, its value is that of the match:
-- every leaf of `all`, some leaf of `any` unless it is empty, and no leaf of `none`.
pub build_condition-meaning :
    (m : Option PolicyMatch)
    → (build_condition m ≡ print (condition_expr m))
      × IsConj (condition_expr m)
      × ((v : MatchLeaf → Bool) → eval v (condition_expr m) ≡ holds v m)
build_condition-meaning m =
    (sym (print-condition_expr m), condition_expr-IsConj m, λ v. eval-condition_expr v m)
