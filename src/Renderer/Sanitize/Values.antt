-- ===== src/Renderer/Sanitize/Values.antt =====
-- What the validators of values and of regular expressions keep out.
use freeradius_k8s_operator.Shared.{ℕ, String, ◌≡◌, true, arith, AllChars, AllChars-imp, NotIn, ok}
use freeradius_k8s_operator.Regexp.{class}
use freeradius_k8s_operator.Regexp.Language.{up_to-Over}
use freeradius_k8s_operator.Renderer.Sanitize.{
  value_char, regex_char, safe_radius_value_re, safe_radius_regex_re, validate_radius_value,
  validate_radius_regex,
}
use freeradius_k8s_operator.Renderer.Sanitize.Safe.{IsOneLine, accepted}

abbrev pub value_stops : String
value_stops = "\"'`\\$\n\r(){}[]#;,&|!<>=*+?^"

abbrev pub regex_stops : String
regex_stops = "\"'`$\n\r#;,&!<>="

-- A value as it may stand without quotes: no quote, escape, expansion, bracket, comment, sign of an
-- operator or line break. Blanks and slashes may be in it.
abbrev pub IsValue : String → Type 0
IsValue = AllChars (NotIn value_stops)

-- A regular expression: no quote, expansion, comment, comparison, `&`, `!` or line break. Brackets,
-- backslashes and slashes may be in it.
abbrev pub IsPattern : String → Type 0
IsPattern = AllChars (NotIn regex_stops)

module _ (n : ℕ) where
  value-stops : value_char n ≡ true → NotIn value_stops n
  value-stops h = ground arith

  regex-stops : regex_char n ≡ true → NotIn regex_stops n
  regex-stops h = ground arith

  value-one_line : NotIn value_stops n → NotIn "\n\r" n
  value-one_line h = ground arith

  regex-one_line : NotIn regex_stops n → NotIn "\n\r" n
  regex-one_line h = ground arith

pub IsValue-IsOneLine : (s : String) → IsValue s → IsOneLine s
IsValue-IsOneLine = AllChars-imp (NotIn value_stops) (NotIn "\n\r") value-one_line

pub IsPattern-IsOneLine : (s : String) → IsPattern s → IsOneLine s
IsPattern-IsOneLine = AllChars-imp (NotIn regex_stops) (NotIn "\n\r") regex-one_line

module _ (field value : String) where
  pub validate_radius_value-IsValue : validate_radius_value field value ≡ ok tt → IsValue value
  unfolding validate_radius_value
  validate_radius_value-IsValue h =
      accepted (NotIn value_stops) safe_radius_value_re field value _
        (up_to-Over (NotIn value_stops) 255 (class value_char) value-stops) h

  pub validate_radius_regex-IsPattern : validate_radius_regex field value ≡ ok tt → IsPattern value
  unfolding validate_radius_regex
  validate_radius_regex-IsPattern h =
      accepted (NotIn regex_stops) safe_radius_regex_re field value _
        (up_to-Over (NotIn regex_stops) 255 (class regex_char) regex-stops) h
