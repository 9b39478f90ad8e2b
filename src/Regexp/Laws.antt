-- ===== src/Regexp/Laws.antt =====
-- The matcher decides the language of the pattern.
use Prim.Native.String.{[], ◌∷◌}
use text.Mathlib.TextLemmas.{nil≢cons, head-eq_of_cons-eq, tail-eq_of_cons-eq}
use freeradius_k8s_operator.Shared.{
  String, Char, code, ◌≡◌, refl, sym, ap, ◌∙◌, ◌↔◌, ◌⊎◌, inl, inr, true, append, arith, Bool-cases,
}
use freeradius_k8s_operator.Regexp.{
  Regexp, never, epsilon, class, seq, alt, star, nullable, derivative, match_string,
}
use freeradius_k8s_operator.Regexp.Language.{Matches, empty, one, both, left, right, stop, again}

nullable_sound : (r : Regexp) → nullable r ≡ true → Matches r ""
unfolding nullable append
nullable_sound never h = cc
nullable_sound epsilon h = empty refl
nullable_sound (class p) h = cc
nullable_sound (seq r q) h =
    both "" "" (refl) (nullable_sound r (ground arith)) (nullable_sound q (ground arith))
nullable_sound (alt r q) h = elim (Bool-cases (nullable r)) [
  | inl e ↦ left (nullable_sound r e)
  | inr e ↦ right (nullable_sound q (ground arith))
]
nullable_sound (star r) h = stop refl

-- A text split in two, at its first character.
split_cons :
    (c : Char) (u s t : String)
    → c ∷ u ≡ append s t
    → ((s ≡ "") × (t ≡ c ∷ u)) ⊎ ((s' : String) × (s ≡ c ∷ s') × (u ≡ append s' t))
unfolding append
split_cons c u [] t e = inl (refl, sym e)
split_cons c u (d ∷ s) t e =
    let e' = e in inr (s, rw (head-eq_of_cons-eq e'), tail-eq_of_cons-eq e')

split_nil : (s t : String) → ◌≡◌ {A = String} "" (append s t) → (s ≡ "") × (t ≡ "")
unfolding append
split_nil [] t e = (refl, sym e)
split_nil (d ∷ s) t e = absurd (nil≢cons (e))

nullable_complete : {r : Regexp} {u : String} → Matches r u → u ≡ "" → nullable r ≡ true
unfolding nullable append
nullable_complete (empty e) n = refl
nullable_complete (one c e p) n = absurd (nil≢cons (sym n ∙ e))
nullable_complete (both s t e m k) n =
    let (a, b) = split_nil s t (sym n ∙ e) in rw (nullable_complete m a) (nullable_complete k b)
nullable_complete (left m) n = ground (arith, nullable_complete m n)
nullable_complete (right m) n = ground (arith, nullable_complete m n)
nullable_complete (stop e) n = refl
nullable_complete (again s t e m k) n = refl

never_inv : {u : String} → Matches never u → ⊥
never_inv m = elim m [ ]

epsilon_inv : {u : String} → Matches epsilon u → u ≡ ""
epsilon_inv (empty e) = e

alt_inv : {r q : Regexp} {u : String} → Matches (alt r q) u → Matches r u ⊎ Matches q u
alt_inv (left m) = inl m
alt_inv (right m) = inr m

seq_inv :
    {r q : Regexp} {u : String}
    → Matches (seq r q) u
    → (s : String) × (t : String) × (u ≡ append s t) × Matches r s × Matches q t
seq_inv (both s t e m k) = (s, t, e, m, k)

cons_split : (c : Char) {u : String} (s t : String) → u ≡ append s t → c ∷ u ≡ append (c ∷ s) t
unfolding append
cons_split c s t e = ap (λ w. c ∷ w) e

derivative_sound :
    (c : Char) (r : Regexp) {u : String} → Matches (derivative (code c) r) u → Matches r (c ∷ u)
unfolding derivative append
derivative_sound c never m = absurd (never_inv m)
derivative_sound c epsilon m = absurd (never_inv m)
derivative_sound c (class p) m = elim (Bool-cases (p (code c))) [
  | inl e ↦ one c (ap (λ w. c ∷ w) (epsilon_inv (rw e at m))) e
  | inr e ↦ absurd (never_inv (rw e at m))
]
derivative_sound c (seq r q) m = elim (Bool-cases (nullable r)) [
  | inl e ↦ elim (alt_inv (rw e at m)) [
    | inl k ↦
        let (s, t, d, a, b) = seq_inv k in
        both (c ∷ s) t (cons_split c s t d) (derivative_sound c r a) b
    | inr k ↦ both "" (c ∷ _) (refl) (nullable_sound r e) (derivative_sound c q k)
  ]
  | inr e ↦
      let (s, t, d, a, b) = seq_inv (rw e at m) in
      both (c ∷ s) t (cons_split c s t d) (derivative_sound c r a) b
]
derivative_sound c (alt r q) m = elim (alt_inv m) [
  | inl k ↦ left (derivative_sound c r k)
  | inr k ↦ right (derivative_sound c q k)
]
derivative_sound c (star r) m =
    let (s, t, d, a, b) = seq_inv m in
    again (c ∷ s) t (cons_split c s t d) (derivative_sound c r a) b

-- The two ways in which a concatenation begins with a character.
derivative_seq :
    (c : Char) (r q : Regexp) {u : String} (s t : String)
    → u ≡ append s t
    → Matches (derivative (code c) r) s
    → Matches q t
    → Matches (derivative (code c) (seq r q)) u
unfolding derivative append
derivative_seq c r q s t e m k = elim (Bool-cases (nullable r)) [
  | inl n ↦ rw n (left (both s t e m k))
  | inr n ↦ rw n (both s t e m k)
]

derivative_skip :
    (c : Char) (r q : Regexp) {u : String}
    → nullable r ≡ true
    → Matches (derivative (code c) q) u
    → Matches (derivative (code c) (seq r q)) u
unfolding derivative append
derivative_skip c r q n m = rw n (right m)

derivative_complete :
    (c : Char) {r : Regexp} {v : String}
    → Matches r v
    → (u : String) → v ≡ c ∷ u
    → Matches (derivative (code c) r) u
unfolding derivative append
derivative_complete c (empty e) u h = absurd (nil≢cons (sym e ∙ h))
derivative_complete c (one d e p) u h =
    let f = sym h ∙ e in rw (ap code (head-eq_of_cons-eq f), p) (empty (tail-eq_of_cons-eq f))
derivative_complete c (both {r} {q} s t e m k) u h = elim (split_cons c u s t (sym h ∙ e)) [
  | inl (a, b) ↦ derivative_skip c r q (nullable_complete m a) (derivative_complete c k u b)
  | inr (s', a, b) ↦ derivative_seq c r q s' t b (derivative_complete c m s' a) k
]
derivative_complete c (left m) u h = left (derivative_complete c m u h)
derivative_complete c (right m) u h = right (derivative_complete c m u h)
derivative_complete c (stop e) u h = absurd (nil≢cons (sym e ∙ h))
derivative_complete c (again s t e m k) u h = elim (split_cons c u s t (sym h ∙ e)) [
  | inl (a, b) ↦ derivative_complete c k u b
  | inr (s', a, b) ↦ both s' t b (derivative_complete c m s' a) k
]

match_sound : (r : Regexp) (u : String) → match_string r u ≡ true → Matches r u
unfolding match_string
match_sound r [] h = nullable_sound r h
match_sound r (c ∷ u) h = derivative_sound c r (match_sound (derivative (code c) r) u h)

match_complete : (r : Regexp) (u : String) → Matches r u → match_string r u ≡ true
unfolding match_string
match_complete r [] m = nullable_complete m refl
match_complete r (c ∷ u) m =
    match_complete (derivative (code c) r) u (derivative_complete c m u refl)

-- Matching a text by derivatives succeeds exactly when the text is in the pattern's language.
pub match_string_iff : (r : Regexp) (u : String) → (match_string r u ≡ true) ↔ Matches r u
match_string_iff r u = (match_sound r u, match_complete r u)
