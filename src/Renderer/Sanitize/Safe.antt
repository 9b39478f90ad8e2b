-- ===== src/Renderer/Sanitize/Safe.antt =====
-- What the validators guarantee of the texts that they accept.
use Prim.Native.String.{[], ◌∷◌}
use freeradius_k8s_operator.Shared.{
  ℕ, ◌≤◌, String, Char, code, ◌≡◌, refl, ap, ◌↔◌, true, append, arith, AllChars, AllChars-imp, size,
  NotIn, ok,
}
use freeradius_k8s_operator.Regexp.{Regexp, class, up_to}
use freeradius_k8s_operator.Regexp.Language.{Matches, Over, up_to-Over, Matches-AllChars, one, both}
use freeradius_k8s_operator.Regexp.Repeats.{Passes, up_to-Matches_iff, star-Matches_iff}
use freeradius_k8s_operator.Regexp.Laws.{match_string_iff}
use freeradius_k8s_operator.Renderer.Sanitize.{
  is_alpha, name_char, host_char, address_char, path_char, attribute_char, dn_char, quoted_char,
  match_or_err, safe_identifier_re, safe_hostname_re, safe_ip_or_cidr_re, safe_dn_re,
  safe_file_path_re, safe_radius_attribute_re, safe_quoted_string_re, validate_identifier,
  validate_quoted_string, validate_hostname, validate_ip_or_cidr, validate_dn, validate_file_path,
  validate_radius_attribute,
}

pub match_or_err_iff :
    (re : Regexp) (field value hint : String)
    → (match_or_err re field value hint ≡ ok tt) ↔ Matches re value
unfolding match_or_err
match_or_err_iff re field value hint =
    (λ h. (match_string_iff re value).0 (ground arith), λ m. rw ((match_string_iff re value).1 m))

-- A letter, then letters, digits, `_` and `-`; 64 characters at most.
pub data IsIdentifier : String → Type 0 where
  identifier :
      {v : String} (c : Char) (s : String)
      → v ≡ c ∷ s
      → is_alpha (code c) ≡ true
      → Passes name_char s
      → size v ≤ 64
      → IsIdentifier v

-- The validator of identifiers accepts exactly a letter and then letters, digits, `_` and `-`, in
-- all 64 characters at most.
pub validate_identifier_iff :
    (field value : String) → (validate_identifier field value ≡ ok tt) ↔ IsIdentifier value
unfolding validate_identifier append
validate_identifier_iff field value = (
  λ h. sound ((match_or_err_iff _ field value _).0 h),
  λ i. (match_or_err_iff _ field value _).1 (complete i),
)
  where
    rest :
        (s : String) → Matches (up_to 63 (class name_char)) s ↔ (Passes name_char s × (size s ≤ 63))
    rest s = up_to-Matches_iff name_char 63 s

    sound : Matches safe_identifier_re value → IsIdentifier value
    sound (both s t e (one c f p) m) =
        let (q, b) = (rest t).0 m in rw (e, f) (identifier c t refl p q (omega arith))

    complete : IsIdentifier value → Matches safe_identifier_re value
    complete (identifier c s e p q b) =
        both (c ∷ []) s e (one c refl p) ((rest s).1 (q, omega (arith, ap size e)))

abbrev pub bare_stops : String
bare_stops = " \t\n\r\"'`\\$(){}#;"

abbrev pub quoted_stops : String
quoted_stops = "\"'`\\$\n\r"

-- Outside quotes: no blank, line break, quote, escape, expansion, bracket or comment.
abbrev pub IsBare : String → Type 0
IsBare = AllChars (NotIn bare_stops)

-- Between quotes: nothing that ends or escapes the quoted text or starts an expansion.
abbrev pub IsQuotable : String → Type 0
IsQuotable = AllChars (NotIn quoted_stops)

-- No line break.
abbrev pub IsOneLine : String → Type 0
IsOneLine = AllChars (NotIn "\n\r")

module _ (n : ℕ) where
  alpha-bare : is_alpha n ≡ true → NotIn bare_stops n
  alpha-bare h = ground arith

  name-bare : name_char n ≡ true → NotIn bare_stops n
  name-bare h = ground arith

  host-bare : host_char n ≡ true → NotIn bare_stops n
  host-bare h = ground arith

  address-bare : address_char n ≡ true → NotIn bare_stops n
  address-bare h = ground arith

  path-bare : path_char n ≡ true → NotIn bare_stops n
  path-bare h = ground arith

  attribute-bare : attribute_char n ≡ true → NotIn bare_stops n
  attribute-bare h = ground arith

  dn-quotable : dn_char n ≡ true → NotIn quoted_stops n
  dn-quotable h = ground arith

  quoted-quotable : quoted_char n ≡ true → NotIn quoted_stops n
  quoted-quotable h = ground arith

  quotable-quoted : NotIn quoted_stops n → quoted_char n ≡ true
  quotable-quoted h = ground arith

  bare-quotable : NotIn bare_stops n → NotIn quoted_stops n
  bare-quotable h = ground arith

  quotable-one_line : NotIn quoted_stops n → NotIn "\n\r" n
  quotable-one_line h = ground arith

pub IsBare-IsQuotable : (s : String) → IsBare s → IsQuotable s
IsBare-IsQuotable = AllChars-imp (NotIn bare_stops) (NotIn quoted_stops) bare-quotable

pub IsQuotable-IsOneLine : (s : String) → IsQuotable s → IsOneLine s
IsQuotable-IsOneLine = AllChars-imp (NotIn quoted_stops) (NotIn "\n\r") quotable-one_line

pub accepted :
    (P : ℕ → Type 0) (re : Regexp) (field value hint : String)
    → Over P re
    → match_or_err re field value hint ≡ ok tt
    → AllChars P value
accepted P re field value hint o h =
    Matches-AllChars P ((match_or_err_iff re field value hint).0 h) o

module _ (field value : String) where
  pub validate_identifier-IsBare : validate_identifier field value ≡ ok tt → IsBare value
  unfolding validate_identifier
  validate_identifier-IsBare h =
      accepted (NotIn bare_stops) safe_identifier_re field value _
        (alpha-bare, up_to-Over (NotIn bare_stops) 63 (class name_char) name-bare) h

  pub validate_hostname-IsBare : validate_hostname field value ≡ ok tt → IsBare value
  unfolding validate_hostname
  validate_hostname-IsBare h =
      accepted (NotIn bare_stops) safe_hostname_re field value _
        (host-bare, up_to-Over (NotIn bare_stops) 252 (class host_char) host-bare) h

  pub validate_ip_or_cidr-IsBare : validate_ip_or_cidr field value ≡ ok tt → IsBare value
  unfolding validate_ip_or_cidr
  validate_ip_or_cidr-IsBare h =
      accepted (NotIn bare_stops) safe_ip_or_cidr_re field value _ (address-bare, address-bare) h

  pub validate_file_path-IsBare : validate_file_path field value ≡ ok tt → IsBare value
  unfolding validate_file_path
  validate_file_path-IsBare h =
      accepted (NotIn bare_stops) safe_file_path_re field value _
        (path-bare, up_to-Over (NotIn bare_stops) 254 (class path_char) path-bare) h

  pub validate_radius_attribute-IsBare :
      validate_radius_attribute field value ≡ ok tt → IsBare value
  unfolding validate_radius_attribute
  validate_radius_attribute-IsBare h =
      accepted (NotIn bare_stops) safe_radius_attribute_re field value _
        (alpha-bare, up_to-Over (NotIn bare_stops) 63 (class attribute_char) attribute-bare) h

  pub validate_dn-IsQuotable : validate_dn field value ≡ ok tt → IsQuotable value
  unfolding validate_dn
  validate_dn-IsQuotable h =
      accepted (NotIn quoted_stops) safe_dn_re field value _ (dn-quotable, dn-quotable) h

  -- The validator of quoted texts accepts exactly the texts without quotes, backquotes, backslashes,
  -- dollar signs and line breaks.
  pub validate_quoted_string_iff : (validate_quoted_string field value ≡ ok tt) ↔ IsQuotable value
  unfolding validate_quoted_string
  validate_quoted_string_iff = (
    λ h. accepted (NotIn quoted_stops) safe_quoted_string_re field value _ quoted-quotable h,
    λ h. (match_or_err_iff _ field value _).1 (
        (star-Matches_iff quoted_char value).1
          (AllChars-imp (NotIn quoted_stops) (λ n. quoted_char n ≡ true) quotable-quoted value h)),
  )
