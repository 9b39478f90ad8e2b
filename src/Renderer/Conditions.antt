-- ===== src/Renderer/Conditions.antt =====
-- `buildCondition` and `joinLeaves` of internal/renderer/sites.go.
pub mod Meaning
pub mod Structure
pub mod Correct
pub mod Lines
use freeradius_k8s_operator.Shared.{
  String, Bool, true, false, ◌||◌, List, [], ◌∷◌, ◌++◌, map, Option, none, some, if◌then◌else◌,
  ◌==◌, concat, join,
}
use freeradius_k8s_operator.Renderer.Types.{MatchLeaf, PolicyMatch}

-- The value as the condition shows it: between slashes after a regular expression's operator.
pub leaf_value : MatchLeaf → String
leaf_value leaf =
    if leaf.operator == "=~" || leaf.operator == "!~"
    then concat ("/" ∷ leaf.value ∷ "/" ∷ [])
    else leaf.value

pub leaf_expr : MatchLeaf → String
leaf_expr leaf =
    concat ("(" ∷ leaf.attribute ∷ " " ∷ leaf.operator ∷ " " ∷ leaf_value leaf ∷ ")" ∷ [])

pub wrap_leaf : Bool → MatchLeaf → String
wrap_leaf negate leaf = if negate then concat ("!" ∷ leaf_expr leaf ∷ []) else leaf_expr leaf

-- One wrapped text stands for itself; several are joined between parentheses.
pub join_wrapped : String → List String → String
join_wrapped sep (w ∷ []) = w
join_wrapped sep ws = concat ("(" ∷ join sep ws ∷ ")" ∷ [])

pub join_leaves : List MatchLeaf → String → Bool → String
join_leaves leaves sep negate = join_wrapped sep (map (wrap_leaf negate) leaves)

-- The group that a list of leaves contributes, unless it is empty.
pub group : List MatchLeaf → String → Bool → List String
group [] sep negate = []
group (l ∷ ls) sep negate = join_leaves (l ∷ ls) sep negate ∷ []

pub join_groups : List String → String
join_groups [] = "true"
join_groups (g ∷ []) = g
join_groups gs = join " && " gs

pub build_condition : Option PolicyMatch → String
build_condition none = "true"
build_condition (some m) =
    join_groups (group m.all " && " false ++ (group m.any " || " false ++ group m.none " && " true))
