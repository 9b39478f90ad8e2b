-- ===== src/Operator/Refs/Cuts.antt =====
-- The search for a pattern: what it finds, and where.
use text.Mathlib.TextEquality.{Char-path}
use freeradius_k8s_operator.Shared.{
  String, Char, code, ◌≡◌, ◌≢◌, refl, sym, ap, ◌∙◌, Option, none, some, append, nat_eq, nat_eq_iff,
  Bool-cases, Option-cases, inl, inr, AllChars, arith, append_assoc_text,
}
use freeradius_k8s_operator.Operator.Refs.{
  strip_prefix, later, cut, replaced, replace_first, marker, reference,
}

pub strip_prefix-some :
    (p s : String) {rest : String} → strip_prefix p s ≡ some rest → s ≡ append p rest
unfolding strip_prefix append
strip_prefix-some String.[] s h = cc
strip_prefix-some (String.◌∷◌ c p) String.[] h = cc
strip_prefix-some (String.◌∷◌ c p) (String.◌∷◌ d s) h =
    elim (Bool-cases (nat_eq (code c) (code d))) [
      | inl e ↦
          let same = Char-path c d ((nat_eq_iff (code c) (code d)).0 e) in
          rw (same, strip_prefix-some p s (rw e at h)) refl
      | inr e ↦ cc (rw e at h)
    ]

pub strip_prefix-append : (p s : String) → strip_prefix p (append p s) ≡ some s
unfolding strip_prefix append
strip_prefix-append String.[] s = refl
strip_prefix-append (String.◌∷◌ c p) s =
    rw ((nat_eq_iff (code c) (code c)).1 refl) (strip_prefix-append p s)

-- A longer pattern goes on where the shorter one ended.
strip_prefix-longer :
    (p q s : String) {rest : String}
    → strip_prefix p s ≡ some rest
    → strip_prefix (append p q) s ≡ strip_prefix q rest
unfolding strip_prefix append
strip_prefix-longer String.[] q s h = cc
strip_prefix-longer (String.◌∷◌ c p) q String.[] h = cc
strip_prefix-longer (String.◌∷◌ c p) q (String.◌∷◌ d s) h =
    elim (Bool-cases (nat_eq (code c) (code d))) [
      | inl e ↦ rw e (strip_prefix-longer p q s (rw e at h))
      | inr e ↦ cc (rw e at h)
    ]

strip_prefix-longer_none :
    (p q s : String) → strip_prefix p s ≡ none → strip_prefix (append p q) s ≡ none
unfolding strip_prefix append
strip_prefix-longer_none String.[] q s h = cc
strip_prefix-longer_none (String.◌∷◌ c p) q String.[] h = refl
strip_prefix-longer_none (String.◌∷◌ c p) q (String.◌∷◌ d s) h =
    elim (Bool-cases (nat_eq (code c) (code d))) [
      | inl e ↦ rw e (strip_prefix-longer_none p q s (rw e at h))
      | inr e ↦ rw e refl
    ]

-- The first characters differ.
strip_prefix-first :
    (d c : Char) (p s : String)
    → code c ≢ code d
    → strip_prefix (String.◌∷◌ d p) (String.◌∷◌ c s) ≡ none
unfolding strip_prefix
strip_prefix-first d c p s h = ground (arith, h)

later-some :
    (c : Char) (found : Option (String × String)) {b r : String}
    → later c found ≡ some (b, r)
    → (before : String) × (found ≡ some (before, r)) × (b ≡ String.◌∷◌ c before)
later-some c none h = cc
later-some c (some (before, rest)) h = (before, cc, cc)

-- What was cut is the text, in three pieces.
pub cut-some : (p s : String) {b r : String} → cut p s ≡ some (b, r) → s ≡ append b (append p r)
unfolding cut append
cut-some p String.[] h = cc
cut-some p (String.◌∷◌ c s) h = elim (Option-cases (strip_prefix p (String.◌∷◌ c s))) [
  | inr (rest, e) ↦ cc (strip_prefix-some p (String.◌∷◌ c s) e, rw e at h)
  | inl e ↦
      let (before, f, g) = later-some c (cut p s) (rw e at h) in rw (g, sym (cut-some p s f)) refl
]

-- A longer pattern that continues the first occurrence is found there.
pub cut-longer :
    (p q s : String) {b r t : String}
    → cut p s ≡ some (b, r)
    → strip_prefix q r ≡ some t
    → cut (append p q) s ≡ some (b, t)
unfolding cut append
cut-longer p q String.[] h k = cc
cut-longer p q (String.◌∷◌ c s) h k = elim (Option-cases (strip_prefix p (String.◌∷◌ c s))) [
  | inr (rest, e) ↦ rw (strip_prefix-longer p q (String.◌∷◌ c s) e) (cc (rw e at h, k))
  | inl e ↦
      let (before, f, g) = later-some c (cut p s) (rw e at h) in
      rw (strip_prefix-longer_none p q (String.◌∷◌ c s) e, cut-longer p q s f k, g) refl
]

reference-continues :
    (path tail rest : String)
    → rest ≡ append path (append "}" tail)
    → strip_prefix (append path "}") rest ≡ some tail
reference-continues path tail rest h =
    rw (h ∙ sym (append_assoc_text path "}" tail)) (strip_prefix-append (append path "}") tail)

-- The loop's replacement changes the reference that was found, and nothing before or behind it.
pub replace_first-reference :
    (content new before rest path tail : String)
    → cut marker content ≡ some (before, rest)
    → cut "}" rest ≡ some (path, tail)
    → replace_first content (reference path) new ≡ append before (append new tail)
unfolding replace_first replaced
replace_first-reference content new before rest path tail h k = ap (replaced content new) (
    cut-longer marker (append path "}") content h
      (reference-continues path tail rest (cut-some "}" rest k)))

-- The text is what stands before its first reference, the reference, and what stands behind it.
pub content-pieces :
    (content before rest path tail : String)
    → cut marker content ≡ some (before, rest)
    → cut "}" rest ≡ some (path, tail)
    → content ≡ append before (append (reference path) tail)
unfolding append
content-pieces content before rest path tail h k =
    rw (cut-some marker content h, cut-some "}" rest k, append_assoc_text path "}" tail) refl

-- A pattern is found behind a text that does not have its first character, and not in one.
pub cut-append :
    (d : Char) (p w t : String)
    → AllChars (λ n. n ≢ code d) w
    → cut (String.◌∷◌ d p) (append w (append (String.◌∷◌ d p) t)) ≡ some (w, t)
unfolding cut append
cut-append d p String.[] t h = rw (strip_prefix-append (String.◌∷◌ d p) t) refl
cut-append d p (String.◌∷◌ c w) t (k, h) =
    rw (strip_prefix-first d c p (append w (append (String.◌∷◌ d p) t)) k, cut-append d p w t h)
      refl

pub cut-absent :
    (d : Char) (p w : String) → AllChars (λ n. n ≢ code d) w → cut (String.◌∷◌ d p) w ≡ none
unfolding cut
cut-absent d p String.[] h = refl
cut-absent d p (String.◌∷◌ c w) (k, h) = rw (strip_prefix-first d c p w k, cut-absent d p w h) refl
