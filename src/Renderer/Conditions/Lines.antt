-- ===== src/Renderer/Conditions/Lines.antt =====
-- A condition is one line when the texts of its leaves are.
use freeradius_k8s_operator.Shared.{
  String, ◌≡◌, refl, Bool, true, false, ◌||◌, ◌==◌, List, [], ◌∷◌, ◌++◌, map, Option, none, some,
  concat, append, join, All, All-append, Bool-cases, inl, inr, AllChars-append, AllChars-concat,
  NotIn, arith,
}
use freeradius_k8s_operator.Renderer.Types.{MatchLeaf, PolicyMatch}
use freeradius_k8s_operator.Renderer.Sanitize.Safe.{IsOneLine}
use freeradius_k8s_operator.Renderer.Conditions.{
  leaf_value, leaf_expr, wrap_leaf, join_wrapped, join_leaves, group, join_groups, build_condition,
}

-- The three texts of a leaf are one line each.
abbrev pub IsLine : MatchLeaf → Type 0
IsLine l = IsOneLine l.attribute × IsOneLine l.operator × IsOneLine l.value

one_line : (ss : List String) → All IsOneLine ss → IsOneLine (concat ss)
one_line = AllChars-concat (NotIn "\n\r")

leaf_value-IsOneLine : (l : MatchLeaf) → IsOneLine l.value → IsOneLine (leaf_value l)
unfolding leaf_value
leaf_value-IsOneLine l h = elim (Bool-cases (l.operator == "=~" || l.operator == "!~")) [
  | inl e ↦ rw e (one_line ("/" ∷ l.value ∷ "/" ∷ []) (omega arith, (h, (omega arith, tt))))
  | inr e ↦ rw e h
]

leaf_expr-IsOneLine : (l : MatchLeaf) → IsLine l → IsOneLine (leaf_expr l)
unfolding leaf_expr
leaf_expr-IsOneLine l (a, o, v) =
    one_line ("(" ∷ l.attribute ∷ " " ∷ l.operator ∷ " " ∷ leaf_value l ∷ ")" ∷ []) (
      omega arith,
      (a, (omega arith, (o, (omega arith, (leaf_value-IsOneLine l v, (omega arith, tt)))))),
    )

wrap_leaf-IsOneLine : (negate : Bool) (l : MatchLeaf) → IsLine l → IsOneLine (wrap_leaf negate l)
unfolding wrap_leaf
wrap_leaf-IsOneLine true l h =
    one_line ("!" ∷ leaf_expr l ∷ []) (omega arith, (leaf_expr-IsOneLine l h, tt))
wrap_leaf-IsOneLine false l h = leaf_expr-IsOneLine l h

join-IsOneLine :
    (sep : String) (ss : List String) → IsOneLine sep → All IsOneLine ss → IsOneLine (join sep ss)
join-IsOneLine sep [] k h = tt
join-IsOneLine sep (s ∷ []) k (p, h) = p
join-IsOneLine sep (s ∷ t ∷ ss) k (p, h) =
    AllChars-append (NotIn "\n\r") s _ p
      (AllChars-append (NotIn "\n\r") sep _ k (join-IsOneLine sep (t ∷ ss) k h))

join_wrapped-IsOneLine :
    (sep : String) (ss : List String)
    → IsOneLine sep
    → All IsOneLine ss
    → IsOneLine (join_wrapped sep ss)
unfolding join_wrapped append
join_wrapped-IsOneLine sep [] k h = omega arith
join_wrapped-IsOneLine sep (s ∷ []) k (p, h) = p
join_wrapped-IsOneLine sep (s ∷ t ∷ ss) k h =
    one_line ("(" ∷ join sep (s ∷ t ∷ ss) ∷ ")" ∷ [])
      (omega arith, (join-IsOneLine sep (s ∷ t ∷ ss) k h, (omega arith, tt)))

wrapped :
    (negate : Bool) (ls : List MatchLeaf)
    → All IsLine ls
    → All IsOneLine (map (wrap_leaf negate) ls)
wrapped negate [] h = tt
wrapped negate (l ∷ ls) (p, h) = (wrap_leaf-IsOneLine negate l p, wrapped negate ls h)

group-IsOneLine :
    (ls : List MatchLeaf) (sep : String) (negate : Bool)
    → IsOneLine sep
    → All IsLine ls
    → All IsOneLine (group ls sep negate)
unfolding group join_leaves
group-IsOneLine [] sep negate k h = tt
group-IsOneLine (l ∷ ls) sep negate k h =
    (join_wrapped-IsOneLine sep (map (wrap_leaf negate) (l ∷ ls)) k (wrapped negate (l ∷ ls) h), tt)

join_groups-IsOneLine : (gs : List String) → All IsOneLine gs → IsOneLine (join_groups gs)
unfolding join_groups
join_groups-IsOneLine [] h = omega arith
join_groups-IsOneLine (g ∷ []) (p, h) = p
join_groups-IsOneLine (g ∷ k ∷ gs) h = join-IsOneLine " && " (g ∷ k ∷ gs) (omega arith) h

pub build_condition-IsOneLine :
    (o : Option PolicyMatch)
    → ((m : PolicyMatch) → o ≡ some m → All IsLine ((m.all ++ m.any) ++ m.none))
    → IsOneLine (build_condition o)
unfolding build_condition
build_condition-IsOneLine none h = omega arith
build_condition-IsOneLine (some m) h =
    let (first, none_part) = All-split (m.all ++ m.any) m.none (h m refl) in
    let (all_part, any_part) = All-split m.all m.any first in
    join_groups-IsOneLine _ (
      All-append IsOneLine (group m.all " && " false) _
        (group-IsOneLine m.all " && " false (omega arith) all_part)
        (All-append IsOneLine (group m.any " || " false) _
          (group-IsOneLine m.any " || " false (omega arith) any_part)
          (group-IsOneLine m.none " && " true (omega arith) none_part)))
  where
    All-split : (xs ys : List MatchLeaf) → All IsLine (xs ++ ys) → All IsLine xs × All IsLine ys
    All-split [] ys h = (tt, h)
    All-split (x ∷ xs) ys (p, h) = let (a, b) = All-split xs ys h in ((p, a), b)
