-- ===== src/Renderer/Validate/Policies.antt =====
-- What the validation of policies guarantees of the texts that the site shows.
use freeradius_k8s_operator.Shared.{
  String, ◌≡◌, ◌≢◌, ◌⊎◌, sym, subst, inl, inr, Bool, true, false, ◌==◌, eq_iff, arith, List, [],
  ◌∷◌, some, if◌then◌else◌, is_in, All, All-imp, concat, each, ok, err, >>-eq-ok, each-eq-ok,
  map_err-eq-ok, Bool-cases,
}
use freeradius_k8s_operator.Renderer.Types.{
  MatchLeaf, PolicyMatch, PolicyAction, PolicySpec, requires_modules,
}
use freeradius_k8s_operator.Renderer.Sanitize.{
  validate_identifier, validate_radius_attribute, validate_radius_operator, validate_radius_value,
  validate_radius_regex,
}
use freeradius_k8s_operator.Renderer.Sanitize.Safe.{
  IsIdentifier, validate_identifier_iff, IsBare, IsOneLine, IsBare-IsQuotable, IsQuotable-IsOneLine,
  validate_radius_attribute-IsBare,
}
use freeradius_k8s_operator.Renderer.Sanitize.Values.{
  IsValue, IsPattern, IsValue-IsOneLine, IsPattern-IsOneLine, validate_radius_value-IsValue,
  validate_radius_regex-IsPattern,
}
use freeradius_k8s_operator.Renderer.Conditions.{build_condition}
use freeradius_k8s_operator.Renderer.Conditions.Lines.{IsLine, build_condition-IsOneLine}
use freeradius_k8s_operator.Renderer.Sanitize.Operators.{
  radius_operators, validate_radius_operator_iff,
}
use freeradius_k8s_operator.Renderer.Validate.{
  validate_group, validate_policy_action, is_regex_operator, validate_match_leaf, leaves, for_some,
  validate_policy_spec,
}

-- The value of a leaf, by whether its operator is one of a regular expression.
abbrev pub HasValue : Bool → String → Type 0
HasValue true value = IsPattern value
HasValue false value = IsValue value

-- What the texts of a leaf hold.
pub record IsCheckedLeaf (l : MatchLeaf) : Type 0 where
  pub attribute : IsBare l.attribute
  pub operator : is_in l.operator radius_operators ≡ true
  pub value : HasValue (is_regex_operator l.operator) l.value

-- What the texts of an action hold that its type uses.
pub record IsCheckedAction (a : PolicyAction) : Type 0 where
  pub called : a.type ≡ "call" → IsIdentifier a.module_name
  pub attribute : a.type ≡ "set" → IsBare a.attribute
  pub value : a.type ≡ "set" → IsValue a.value
  pub listed :
      a.type ≡ "redundant" ⊎ a.type ≡ "load-balance" → (a.modules ≢ []) × All IsIdentifier a.modules

leaf_value-HasValue :
    (regex : Bool) (value : String)
    → (if regex
        then validate_radius_regex "match value" value
        else validate_radius_value "match value" value)
      ≡ ok tt
    → HasValue regex value
leaf_value-HasValue true value h = validate_radius_regex-IsPattern "match value" value h
leaf_value-HasValue false value h = validate_radius_value-IsValue "match value" value h

validate_match_leaf-IsChecked : (l : MatchLeaf) → validate_match_leaf l ≡ ok tt → IsCheckedLeaf l
unfolding validate_match_leaf
validate_match_leaf-IsChecked l h =
    let (a, rest) = >>-eq-ok (validate_radius_attribute "match attribute" l.attribute) _ h in
    let (o, v) = >>-eq-ok (validate_radius_operator "match operator" l.operator) _ rest in
    record {
      attribute = validate_radius_attribute-IsBare "match attribute" l.attribute a;
      operator = (validate_radius_operator_iff "match operator" l.operator).0 o;
      value = leaf_value-HasValue (is_regex_operator l.operator) l.value v;
    }

-- A text of a list of texts of one line is of one line.
in-IsOneLine : (s : String) (xs : List String) → is_in s xs ≡ true → All IsOneLine xs → IsOneLine s
in-IsOneLine s [] h k = cc
in-IsOneLine s (x ∷ xs) h (p, k) = elim (Bool-cases (s == x)) [
  | inl e ↦ subst IsOneLine (sym ((eq_iff s x).0 e)) p
  | inr e ↦ in-IsOneLine s xs (rw e at h) k
]

HasValue-IsOneLine : (regex : Bool) (value : String) → HasValue regex value → IsOneLine value
HasValue-IsOneLine true value h = IsPattern-IsOneLine value h
HasValue-IsOneLine false value h = IsValue-IsOneLine value h

IsCheckedLeaf-IsLine : (l : MatchLeaf) → IsCheckedLeaf l → IsLine l
IsCheckedLeaf-IsLine l c = (
  IsQuotable-IsOneLine l.attribute (IsBare-IsQuotable l.attribute c.attribute),
  in-IsOneLine l.operator radius_operators c.operator (omega arith),
  HasValue-IsOneLine (is_regex_operator l.operator) l.value c.value,
)

identifiers :
    (field : String) (ms : List String)
    → All (λ m. validate_identifier field m ≡ ok tt) ms
    → All IsIdentifier ms
identifiers field = All-imp λ m. (validate_identifier_iff field m).0

validate_group-listed :
    (a : PolicyAction) → validate_group a ≡ ok tt → (a.modules ≢ []) × All IsIdentifier a.modules
unfolding validate_group
validate_group-listed a h = go a.modules h
  where
    go :
        (ms : List String)
        → elim ms [
          | [] ↦ err (requires_modules a.type)
          | m ∷ ms' ↦ each (validate_identifier (concat ("module in " ∷ a.type ∷ []))) (m ∷ ms')
        ]
          ≡ ok tt
        → (ms ≢ []) × All IsIdentifier ms
    go [] k = cc
    go (m ∷ ms) k = (λ e. cc, identifiers _ (m ∷ ms) ((each-eq-ok _ (m ∷ ms)).0 k))

module _ (a : PolicyAction) (h : validate_policy_action a ≡ ok tt) where
  call_part : a.type ≡ "call" → IsIdentifier a.module_name
  unfolding validate_policy_action
  call_part e = (validate_identifier_iff "call module" a.module_name).0 (simp e at h)

  set_part : a.type ≡ "set" → IsBare a.attribute × IsValue a.value
  unfolding validate_policy_action
  set_part e =
      let (x, y) =
        >>-eq-ok (validate_radius_attribute "set attribute" a.attribute) _ (simp e at h) in
      (
        validate_radius_attribute-IsBare "set attribute" a.attribute x,
        validate_radius_value-IsValue "set value" a.value y,
      )

  group_part :
      a.type ≡ "redundant" ⊎ a.type ≡ "load-balance" → (a.modules ≢ []) × All IsIdentifier a.modules
  unfolding validate_policy_action
  group_part (inl e) = validate_group-listed a (simp e at h)
  group_part (inr e) = validate_group-listed a (simp e at h)

  validate_policy_action-IsChecked : IsCheckedAction a
  validate_policy_action-IsChecked = record {
    called = call_part;
    attribute = λ e. (set_part e).0;
    value = λ e. (set_part e).1;
    listed = group_part;
  }

-- What the validation of a policy without raw text guarantees.
pub record IsCheckedPolicy (p : PolicySpec) : Type 0 where
  pub leaves_checked : (m : PolicyMatch) → p.match ≡ some m → All IsCheckedLeaf (leaves m)
  pub actions_checked : All IsCheckedAction p.actions
  pub condition : IsOneLine (build_condition p.match)

-- When a policy has no raw text and passes the validation, each leaf of its match has a bare
-- attribute, a known operator and a value: without brackets, quotes, escapes and signs of operators,
-- or, where the operator is one of a regular expression, without quotes, `$`, `&`, `!`,
-- comparisons and comments, though brackets, backslashes and slashes may be in it; each `call` names
-- an identifier, each `set` a bare attribute and a value of the first kind, and each group has
-- modules, which are identifiers; and the rendered condition holds no line break.
pub validate_policy_spec-IsCheckedPolicy :
    (p : PolicySpec) → p.raw_config ≡ "" → validate_policy_spec p ≡ ok tt → IsCheckedPolicy p
unfolding validate_policy_spec
validate_policy_spec-IsCheckedPolicy p raw h =
    let (x, y) = >>-eq-ok (for_some _ p.match) _ (simp raw at h) in
    let matched : (m : PolicyMatch) → p.match ≡ some m → All IsCheckedLeaf (leaves m) = λ m e.
      All-imp validate_match_leaf-IsChecked (leaves m)
        ((each-eq-ok validate_match_leaf (leaves m)).0 (map_err-eq-ok _ _ (simp e at x))) in
    record {
      leaves_checked = matched;
      actions_checked =
          All-imp (λ a k. validate_policy_action-IsChecked a (map_err-eq-ok _ _ k)) p.actions
            ((each-eq-ok _ p.actions).0 y);
      condition =
          build_condition-IsOneLine p.match
            λ m e. All-imp IsCheckedLeaf-IsLine (leaves m) (matched m e);
    }
