-- ===== src/Regexp.antt =====
-- Go's `regexp` on the anchored patterns of internal/renderer/sanitize.go: matching by derivatives.
pub mod Language
pub mod Laws
pub mod Repeats
use freeradius_k8s_operator.Shared.{
  ℕ, zero, suc, String, code, Bool, true, false, ◌&&◌, ◌||◌, nat_eq, if◌then◌else◌,
}

-- A class is a test on the code point.
pub data Regexp : Type 0 where
  never : Regexp
  epsilon : Regexp
  class : (ℕ → Bool) → Regexp
  seq : Regexp → Regexp → Regexp
  alt : Regexp → Regexp → Regexp
  star : Regexp → Regexp

-- r+
abbrev pub plus : Regexp → Regexp
plus r = seq r (star r)

-- r?
abbrev pub opt : Regexp → Regexp
opt r = alt epsilon r

-- r{0,n}
unfoldable pub up_to : ℕ → Regexp → Regexp
up_to zero r = epsilon
up_to (suc n) r = alt epsilon (seq r (up_to n r))

-- A quoted text, character by character.
unfoldable pub literal : String → Regexp
literal String.[] = epsilon
literal (String.◌∷◌ c s) = seq (class (nat_eq (code c))) (literal s)

unfoldable pub nullable : Regexp → Bool
nullable never = false
nullable epsilon = true
nullable (class p) = false
nullable (seq r q) = nullable r && nullable q
nullable (alt r q) = nullable r || nullable q
nullable (star r) = true

-- What is left to match after the character `c`.
unfoldable pub derivative : ℕ → Regexp → Regexp
derivative c never = never
derivative c epsilon = never
derivative c (class p) = if p c then epsilon else never
derivative c (seq r q) =
    if nullable r then alt (seq (derivative c r) q) (derivative c q) else seq (derivative c r) q
derivative c (alt r q) = alt (derivative c r) (derivative c q)
derivative c (star r) = seq (derivative c r) (star r)

-- `re.MatchString(value)` for a pattern between `^` and `$`.
unfoldable pub match_string : Regexp → String → Bool
unfolding nullable derivative
match_string r String.[] = nullable r
match_string r (String.◌∷◌ c s) = match_string (derivative (code c) r) s
