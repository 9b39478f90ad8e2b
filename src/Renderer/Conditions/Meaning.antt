-- ===== src/Renderer/Conditions/Meaning.antt =====
-- What a rendered condition means: it prints an expression whose value is that of the match.
use freeradius_k8s_operator.Shared.{
  String, ◌≡◌, refl, Bool, true, false, ◌&&◌, ◌||◌, not, List, [], ◌∷◌, map, Option, none, some,
  if◌then◌else◌, concat, join, any, all,
}
use freeradius_k8s_operator.Renderer.Types.{MatchLeaf, PolicyMatch}
use freeradius_k8s_operator.Renderer.Conditions.{leaf_expr, wrap_leaf, join_wrapped, join_leaves}

-- The expressions of unlang that conditions use.
pub data Expr : Type 0 where
  truth : Expr
  atom : MatchLeaf → Expr
  negation : Expr → Expr
  conj disj : Expr → Expr → Expr
  paren : Expr → Expr

unfoldable pub print : Expr → String
print truth = "true"
print (atom l) = leaf_expr l
print (negation e) = concat ("!" ∷ print e ∷ [])
print (conj a b) = concat (print a ∷ " && " ∷ print b ∷ [])
print (disj a b) = concat (print a ∷ " || " ∷ print b ∷ [])
print (paren e) = concat ("(" ∷ print e ∷ ")" ∷ [])

-- The value of an expression, given that of each comparison.
unfoldable pub eval : (MatchLeaf → Bool) → Expr → Bool
eval v truth = true
eval v (atom l) = v l
eval v (negation e) = not (eval v e)
eval v (conj a b) = eval v a && eval v b
eval v (disj a b) = eval v a || eval v b
eval v (paren e) = eval v e

-- Where the parentheses of an expression stand: what `!`, `&&` and `||` join is a single term or,
-- behind `&&` and `||`, a chain of the same operator.
mutual
  pub data IsTerm : Expr → Type 0 where
    of_truth : IsTerm truth
    of_atom : {l : MatchLeaf} → IsTerm (atom l)
    of_negation : {e : Expr} → IsTerm e → IsTerm (negation e)
    of_paren_conj : {e : Expr} → IsConj e → IsTerm (paren e)
    of_paren_disj : {e : Expr} → IsDisj e → IsTerm (paren e)

  pub data IsConj : Expr → Type 0 where
    last_conj : {e : Expr} → IsTerm e → IsConj e
    more_conj : {a b : Expr} → IsTerm a → IsConj b → IsConj (conj a b)

  pub data IsDisj : Expr → Type 0 where
    last_disj : {e : Expr} → IsTerm e → IsDisj e
    more_disj : {a b : Expr} → IsTerm a → IsDisj b → IsDisj (disj a b)

-- When a match holds: every leaf of `all`, some leaf of a non-empty `any`, no leaf of `none`.
unfoldable pub some_of : (MatchLeaf → Bool) → List MatchLeaf → Bool
some_of v [] = true
some_of v (l ∷ ls) = any v (l ∷ ls)

unfoldable pub holds : (MatchLeaf → Bool) → Option PolicyMatch → Bool
unfolding some_of
holds v none = true
holds v (some m) = all v m.all && (some_of v m.any && all (λ l. not (v l)) m.none)

-- The texts of a list of leaves, as expressions.
unfoldable pub leaf_term : Bool → MatchLeaf → Expr
leaf_term negate l = if negate then negation (atom l) else atom l

unfoldable pub conj_chain : Bool → MatchLeaf → List MatchLeaf → Expr
conj_chain negate l [] = leaf_term negate l
conj_chain negate l (k ∷ ks) = conj (leaf_term negate l) (conj_chain negate k ks)

unfoldable pub disj_chain : MatchLeaf → List MatchLeaf → Expr
disj_chain l [] = atom l
disj_chain l (k ∷ ks) = disj (atom l) (disj_chain k ks)

unfoldable pub conj_group : Bool → MatchLeaf → List MatchLeaf → Expr
conj_group negate l [] = leaf_term negate l
conj_group negate l (k ∷ ks) = paren (conj_chain negate l (k ∷ ks))

unfoldable pub disj_group : MatchLeaf → List MatchLeaf → Expr
disj_group l [] = atom l
disj_group l (k ∷ ks) = paren (disj_chain l (k ∷ ks))

print-leaf_term : (negate : Bool) (l : MatchLeaf) → print (leaf_term negate l) ≡ wrap_leaf negate l
unfolding print leaf_term wrap_leaf
print-leaf_term true l = refl
print-leaf_term false l = refl

print-conj_chain :
    (negate : Bool) (l : MatchLeaf) (ls : List MatchLeaf)
    → print (conj_chain negate l ls) ≡ join " && " (map (wrap_leaf negate) (l ∷ ls))
unfolding print conj_chain
print-conj_chain negate l [] = print-leaf_term negate l
print-conj_chain negate l (k ∷ ks) = rw (print-leaf_term negate l, print-conj_chain negate k ks)

print-disj_chain :
    (l : MatchLeaf) (ls : List MatchLeaf)
    → print (disj_chain l ls) ≡ join " || " (map (wrap_leaf false) (l ∷ ls))
unfolding print disj_chain wrap_leaf
print-disj_chain l [] = refl
print-disj_chain l (k ∷ ks) = rw (print-disj_chain k ks)

pub print-conj_group :
    (negate : Bool) (l : MatchLeaf) (ls : List MatchLeaf)
    → print (conj_group negate l ls) ≡ join_leaves (l ∷ ls) " && " negate
unfolding print conj_group join_leaves join_wrapped
print-conj_group negate l [] = print-leaf_term negate l
print-conj_group negate l (k ∷ ks) = rw (print-conj_chain negate l (k ∷ ks))

pub print-disj_group :
    (l : MatchLeaf) (ls : List MatchLeaf)
    → print (disj_group l ls) ≡ join_leaves (l ∷ ls) " || " false
unfolding print disj_group join_leaves join_wrapped wrap_leaf
print-disj_group l [] = refl
print-disj_group l (k ∷ ks) = rw (print-disj_chain l (k ∷ ks))
