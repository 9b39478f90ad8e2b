-- ===== src/Renderer/Sanitize.antt =====
-- internal/renderer/sanitize.go: the patterns and the validators.
pub mod Safe
pub mod Values
pub mod Operators
use freeradius_k8s_operator.Shared.{
  ℕ, String, code, Bool, false, ◌&&◌, ◌||◌, not, List, [], ◌∷◌, nat_eq, leb, if◌then◌else◌, Check,
  ok, err, Char,
}
use freeradius_k8s_operator.Regexp.{
  Regexp, never, class, seq, alt, star, plus, opt, up_to, literal, match_string,
}
use freeradius_k8s_operator.Renderer.Types.{Error, invalid_value}

abbrev pub is_alpha : ℕ → Bool
is_alpha c = (leb b'a' c && leb c b'z') || (leb b'A' c && leb c b'Z')

abbrev pub is_digit : ℕ → Bool
is_digit c = leb b'0' c && leb c b'9'

abbrev pub is_hex : ℕ → Bool
is_hex c = is_digit c || (leb b'a' c && leb c b'f') || (leb b'A' c && leb c b'F')

-- The characters of a quoted text, as part of a class.
abbrev pub one_of : String → ℕ → Bool
one_of String.[] c = false
one_of (String.◌∷◌ d s) c = nat_eq c (code d) || one_of s c

abbrev pub word : ℕ → Bool
word c = is_alpha c || is_digit c

-- The classes of the patterns below.
abbrev pub name_char : ℕ → Bool
name_char c = word c || one_of "_-" c

abbrev pub host_char : ℕ → Bool
host_char c = word c || one_of "._:-" c

abbrev pub address_char : ℕ → Bool
address_char c = is_hex c || one_of ".:/" c

abbrev pub dn_char : ℕ → Bool
dn_char c = word c || one_of " =,._-" c

abbrev pub path_char : ℕ → Bool
path_char c = word c || one_of "/_.-" c

abbrev pub attribute_char : ℕ → Bool
attribute_char c = word c || one_of "-" c

abbrev pub value_char : ℕ → Bool
value_char c = word c || one_of " _.@:/-" c

abbrev pub regex_char : ℕ → Bool
regex_char c = word c || one_of " _.@:/*+?^|(){}[]\\-" c

abbrev pub quoted_char : ℕ → Bool
quoted_char c = not (one_of "\"'`\\$\n\r" c)

abbrev pub uri_char : ℕ → Bool
uri_char c = not (one_of " \t\n\r\"'\\`" c || nat_eq c 12)

-- A pattern that is one of several texts.
unfoldable pub any_text : List String → Regexp
unfolding literal
any_text [] = never
any_text (s ∷ ss) = alt (literal s) (any_text ss)

unfoldable pub safe_identifier_re : Regexp
unfolding up_to
safe_identifier_re = seq (class is_alpha) (up_to 63 (class name_char))

unfoldable pub safe_hostname_re : Regexp
unfolding up_to
safe_hostname_re = let r = class host_char in seq r (up_to 252 r)

unfoldable pub safe_ip_or_cidr_re : Regexp
safe_ip_or_cidr_re = plus (class address_char)

pub safe_dn_re : Regexp
safe_dn_re = plus (class dn_char)

pub safe_file_path_re : Regexp
unfolding up_to
safe_file_path_re = let r = class path_char in seq r (up_to 254 r)

pub safe_uri_re : Regexp
unfolding literal
safe_uri_re =
    seq (class is_alpha) (
      seq (star (class λ c. word c || one_of "+.-" c))
        (seq (literal "://") (plus (class uri_char))))

pub safe_http_method_re : Regexp
unfolding any_text
safe_http_method_re =
    any_text ("GET" ∷ "POST" ∷ "PUT" ∷ "PATCH" ∷ "DELETE" ∷ "HEAD" ∷ "OPTIONS" ∷ [])

unfoldable pub safe_radius_attribute_re : Regexp
unfolding up_to
safe_radius_attribute_re = seq (class is_alpha) (up_to 63 (class attribute_char))

unfoldable pub safe_radius_operator_re : Regexp
unfolding any_text
safe_radius_operator_re =
    alt (any_text ("==" ∷ "!=" ∷ ">=" ∷ "<=" ∷ ">" ∷ "<" ∷ "=~" ∷ "!~" ∷ []))
      (alt (seq (opt (literal "+")) (literal "=")) (literal ":="))

unfoldable pub safe_radius_value_re : Regexp
unfolding up_to
safe_radius_value_re = up_to 255 (class value_char)

unfoldable pub safe_radius_regex_re : Regexp
unfolding up_to
safe_radius_regex_re = up_to 255 (class regex_char)

unfoldable pub safe_quoted_string_re : Regexp
safe_quoted_string_re = star (class quoted_char)

unfoldable pub match_or_err : Regexp → String → String → String → Check Error
match_or_err re field value hint =
    if not (match_string re value) then err (invalid_value field value hint) else ok tt

unfoldable pub validate_identifier : String → String → Check Error
unfolding match_or_err safe_identifier_re
validate_identifier field value =
    match_or_err safe_identifier_re field value "is not a valid identifier"

unfoldable pub validate_hostname : String → String → Check Error
unfolding match_or_err safe_hostname_re
validate_hostname field value =
    match_or_err safe_hostname_re field value "contains disallowed characters"

unfoldable pub validate_ip_or_cidr : String → String → Check Error
unfolding match_or_err safe_ip_or_cidr_re
validate_ip_or_cidr field value =
    match_or_err safe_ip_or_cidr_re field value "contains disallowed characters"

pub validate_dn : String → String → Check Error
unfolding match_or_err safe_dn_re
validate_dn field value = match_or_err safe_dn_re field value "contains disallowed characters"

pub validate_file_path : String → String → Check Error
unfolding match_or_err safe_file_path_re
validate_file_path field value =
    match_or_err safe_file_path_re field value "contains disallowed characters"

pub validate_uri : String → String → Check Error
unfolding match_or_err safe_uri_re
validate_uri field value = match_or_err safe_uri_re field value "is not a valid URI"

-- The character of the second text that stands where `c` stands in the first.
translate : String → String → Char → Char
translate (String.◌∷◌ f from) (String.◌∷◌ t to) c =
    if nat_eq (code f) (code c) then t else translate from to c
translate _ _ c = c

-- `strings.ToUpper` as far as its result can be ASCII: besides a to z, U+0131 and U+017F are the
-- characters that have an ASCII upper case. The other characters stay.
to_upper : String → String
unfolding translate
to_upper String.[] = ""
to_upper (String.◌∷◌ c s) =
    String.◌∷◌ (translate "abcdefghijklmnopqrstuvwxyzıſ" "ABCDEFGHIJKLMNOPQRSTUVWXYZIS" c)
      (to_upper s)

pub validate_http_method : String → String → Check Error
unfolding match_or_err safe_http_method_re to_upper
validate_http_method field value =
    match_or_err safe_http_method_re field (to_upper value) "is not a valid HTTP method"

unfoldable pub validate_quoted_string : String → String → Check Error
unfolding match_or_err safe_quoted_string_re
validate_quoted_string field value =
    match_or_err safe_quoted_string_re field value
      "contains characters that could break config syntax"

unfoldable pub validate_radius_attribute : String → String → Check Error
unfolding match_or_err safe_radius_attribute_re
validate_radius_attribute field value =
    match_or_err safe_radius_attribute_re field value "is not a valid RADIUS attribute name"

unfoldable pub validate_radius_operator : String → String → Check Error
unfolding match_or_err safe_radius_operator_re
validate_radius_operator field value =
    match_or_err safe_radius_operator_re field value "is not a valid RADIUS operator"

unfoldable pub validate_radius_value : String → String → Check Error
unfolding match_or_err safe_radius_value_re
validate_radius_value field value =
    match_or_err safe_radius_value_re field value "contains disallowed characters"

unfoldable pub validate_radius_regex : String → String → Check Error
unfolding match_or_err safe_radius_regex_re
validate_radius_regex field value =
    match_or_err safe_radius_regex_re field value "contains disallowed characters for regex"
