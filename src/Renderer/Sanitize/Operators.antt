-- ===== src/Renderer/Sanitize/Operators.antt =====
-- The texts that the validators of operators and of HTTP methods accept.
use Prim.Native.String.{[], ◌∷◌}
use freeradius_k8s_operator.Shared.{
  String, code, ◌≡◌, refl, sym, ap, subst, ◌∙◌, ◌↔◌, ◌⊎◌, Bool, true, false, ◌||◌, List, ◌==◌,
  eq_iff, is_in, append, arith, nat_eq_iff, Bool-cases, inl, inr, ok,
}
use text.Mathlib.TextEquality.{Char-path}
use freeradius_k8s_operator.Regexp.{Regexp, never, literal, seq, alt, opt}
use freeradius_k8s_operator.Regexp.Language.{Matches, empty, one, both, left, right}
use freeradius_k8s_operator.Renderer.Sanitize.{
  any_text, safe_radius_operator_re, validate_radius_operator,
}
use freeradius_k8s_operator.Renderer.Sanitize.Safe.{match_or_err_iff}

literal-Matches : (s u : String) → Matches (literal s) u → u ≡ s
unfolding literal append
literal-Matches [] u (empty e) = e
literal-Matches (c ∷ s) u (both v t e (one d f p) m) =
    e
    ∙ (ap (λ w. append w t) f ∙ (λ i.
        sym (Char-path c d ((nat_eq_iff (code c) (code d)).0 p)) i ∷ literal-Matches s t m i))

Matches-literal : (s : String) → Matches (literal s) s
unfolding literal append
Matches-literal [] = empty refl
Matches-literal (c ∷ s) = both (c ∷ []) s refl (one c refl (ground arith)) (Matches-literal s)

Matches_never : {u : String} {A : Type 0} → Matches never u → A
Matches_never m = elim m [ ]

or_right : (a b : Bool) → b ≡ true → (a || b) ≡ true
or_right true b h = refl
or_right false b h = h

one_of_two :
    {r q : Regexp} {u s : String} {b : Bool}
    → (Matches r u → u ≡ s)
    → (Matches q u → b ≡ true)
    → Matches (alt r q) u
    → (u == s || b) ≡ true
one_of_two {r} {q} {u} {s} f g (left m) = rw ((eq_iff u s).1 (f m)) refl
one_of_two {r} {q} {u} {s} f g (right m) = or_right (u == s) _ (g m)

any_text_iff : (ss : List String) (u : String) → Matches (any_text ss) u ↔ (is_in u ss ≡ true)
unfolding any_text
any_text_iff List.[] u = (λ m. Matches_never m, λ h. cc)
any_text_iff (List.◌∷◌ s ss) u =
    let (to, from) = any_text_iff ss u in
    (
      λ m. one_of_two (literal-Matches s u) to m,
      λ h. elim (Bool-cases (u == s)) [
        | inl e ↦ left (subst (Matches (literal s)) (sym ((eq_iff u s).0 e)) (Matches-literal s))
        | inr e ↦ right (from (rw e at h))
      ],
    )

abbrev pub comparisons : List String
comparisons = List.◌∷◌ "==" (
    List.◌∷◌ "!=" (
      List.◌∷◌ ">="
        (List.◌∷◌ "<=" (List.◌∷◌ ">" (List.◌∷◌ "<" (List.◌∷◌ "=~" (List.◌∷◌ "!~" List.[])))))))

-- The operators of the policies' conditions.
abbrev pub radius_operators : List String
radius_operators = List.◌∷◌ "=" (List.◌∷◌ "+=" (List.◌∷◌ ":=" comparisons))

listed : {u v : String} → is_in v radius_operators ≡ true → u ≡ v → is_in u radius_operators ≡ true
listed h e = subst (λ w. is_in w radius_operators ≡ true) (sym e) h

in_three : (u : String) → is_in u radius_operators ≡ true → Matches safe_radius_operator_re u
unfolding safe_radius_operator_re append
in_three u h = elim (Bool-cases (u == "=")) [
  | inl e ↦ right (
      left (
        subst (Matches _) (sym ((eq_iff u "=").0 e))
          (both "" "=" refl (left (empty refl)) (Matches-literal "="))))
  | inr e ↦ elim (Bool-cases (u == "+=")) [
    | inl f ↦ right (
        left (
          subst (Matches _) (sym ((eq_iff u "+=").0 f))
            (both "+" "=" refl (right (Matches-literal "+")) (Matches-literal "="))))
    | inr f ↦ elim (Bool-cases (u == ":=")) [
      | inl g ↦ right (right (subst (Matches _) (sym ((eq_iff u ":=").0 g)) (Matches-literal ":=")))
      | inr g ↦
          left {q = alt (seq (opt (literal "+")) (literal "=")) (literal ":=")}
            ((any_text_iff comparisons u).1 (rw (e, f, g) at h))
    ]
  ]
]

from_optional :
    (u : String) → Matches (seq (opt (literal "+")) (literal "=")) u → (u ≡ "=") ⊎ (u ≡ "+=")
unfolding append
from_optional u (both s t e (left (empty k)) m) = inl (simp (k, literal-Matches "=" t m) at e)
from_optional u (both s t e (right n) m) =
    inr (simp (literal-Matches "+" s n, literal-Matches "=" t m) at e)

accepted_operator :
    (u : String) → Matches safe_radius_operator_re u → is_in u radius_operators ≡ true
unfolding safe_radius_operator_re
accepted_operator u (left m) =
    or_right (u == "=") _
      (or_right (u == "+=") _ (or_right (u == ":=") _ ((any_text_iff comparisons u).0 m)))
accepted_operator u (right (right m)) = listed refl (literal-Matches ":=" u m)
accepted_operator u (right (left m)) = elim (from_optional u m) [
  | inl e ↦ listed refl e
  | inr e ↦ listed refl e
]

-- The validator of operators accepts exactly the eleven operators `=`, `+=`, `:=`, `==`, `!=`, `>=`,
-- `<=`, `>`, `<`, `=~` and `!~`.
pub validate_radius_operator_iff :
    (field value : String)
    → (validate_radius_operator field value ≡ ok tt) ↔ (is_in value radius_operators ≡ true)
unfolding validate_radius_operator
validate_radius_operator_iff field value = (
  λ h. accepted_operator value ((match_or_err_iff _ field value _).0 h),
  λ h. (match_or_err_iff _ field value _).1 (in_three value h),
)
