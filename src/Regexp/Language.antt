-- ===== src/Regexp/Language.antt =====
-- The language of a pattern, as the documentation of Go's `regexp` gives it, and the characters
-- that its texts can hold.
use Prim.Native.String.{[], ◌∷◌}
use freeradius_k8s_operator.Shared.{
  ℕ, zero, suc, String, code, ◌≡◌, Bool, true, append, AllChars, AllChars-append, Char,
}
use freeradius_k8s_operator.Regexp.{Regexp, never, epsilon, class, seq, alt, star, up_to}

pub data Matches : Regexp → String → Type 0 where
  empty : {u : String} → u ≡ "" → Matches epsilon u
  one :
      {p : ℕ → Bool} {u : String} (c : Char) → u ≡ c ∷ [] → p (code c) ≡ true → Matches (class p) u
  both :
      {r q : Regexp} {u : String} (s t : String)
      → u ≡ append s t
      → Matches r s
      → Matches q t
      → Matches (seq r q) u
  left : {r q : Regexp} {u : String} → Matches r u → Matches (alt r q) u
  right : {r q : Regexp} {u : String} → Matches q u → Matches (alt r q) u
  stop : {r : Regexp} {u : String} → u ≡ "" → Matches (star r) u
  again :
      {r : Regexp} {u : String} (s t : String)
      → u ≡ append s t
      → Matches r s
      → Matches (star r) t
      → Matches (star r) u

-- Every class of the pattern lies within `P`.
abbrev pub Over : (ℕ → Type 0) → Regexp → Type 0
Over P never = Unit
Over P epsilon = Unit
Over P (class p) = (n : ℕ) → p n ≡ true → P n
Over P (seq r q) = Over P r × Over P q
Over P (alt r q) = Over P r × Over P q
Over P (star r) = Over P r

module _ (P : ℕ → Type 0) where
  pub up_to-Over : (n : ℕ) (r : Regexp) → Over P r → Over P (up_to n r)
  unfolding up_to
  up_to-Over zero r h = tt
  up_to-Over (suc n) r h = (tt, (h, up_to-Over n r h))

  -- A text that matches holds only characters of the pattern's classes.
  pub Matches-AllChars : {r : Regexp} {u : String} → Matches r u → Over P r → AllChars P u
  Matches-AllChars (empty e) h = rw e tt
  Matches-AllChars (one c e p) h = rw e (h (code c) p, tt)
  Matches-AllChars (both s t e m n) (h, k) =
      rw e (AllChars-append P s t (Matches-AllChars m h) (Matches-AllChars n k))
  Matches-AllChars (left m) (h, k) = Matches-AllChars m h
  Matches-AllChars (right m) (h, k) = Matches-AllChars m k
  Matches-AllChars (stop e) h = rw e tt
  Matches-AllChars (again s t e m n) h =
      rw e (AllChars-append P s t (Matches-AllChars m h) (Matches-AllChars n h))
