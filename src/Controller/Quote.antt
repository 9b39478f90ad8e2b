-- ===== src/Controller/Quote.antt =====
-- The verb `%q` of Go's fmt, on texts whose characters beyond ASCII are printable.
use freeradius_k8s_operator.Shared.{
  ℕ, String, Char, code, List, [], ◌∷◌, nat_eq, ltb, if◌then◌else◌, ◌||◌, append, concat,
}
use Prim.Native.Nat.{◌-◌, zero, suc}

-- The n-th text of a list.
nth : ℕ → List String → String
nth n [] = ""
nth zero (s ∷ ss) = s
nth (suc n) (s ∷ ss) = nth n ss

hex_digits : List String
hex_digits =
    "0" ∷ "1" ∷ "2" ∷ "3" ∷ "4" ∷ "5" ∷ "6" ∷ "7" ∷ "8" ∷ "9" ∷ "a" ∷ "b" ∷ "c" ∷ "d" ∷ "e" ∷ "f"
    ∷ []

-- The two digits of a control character's code.
control_digits : ℕ → String
unfolding nth hex_digits
control_digits n =
    if nat_eq n 127
    then "7f"
    else if ltb n 16
    then append "0" (nth n hex_digits)
    else append "1" (nth (n - 16) hex_digits)

escaped_char : Char → String
unfolding control_digits
escaped_char c =
    if nat_eq (code c) 34
    then "\\\""
    else if nat_eq (code c) 92
    then "\\\\"
    else if nat_eq (code c) 7
    then "\\a"
    else if nat_eq (code c) 8
    then "\\b"
    else if nat_eq (code c) 12
    then "\\f"
    else if nat_eq (code c) 10
    then "\\n"
    else if nat_eq (code c) 13
    then "\\r"
    else if nat_eq (code c) 9
    then "\\t"
    else if nat_eq (code c) 11
    then "\\v"
    else if ltb (code c) 32 || nat_eq (code c) 127
    then append "\\x" (control_digits (code c))
    else String.◌∷◌ c ""

escaped : String → String
unfolding escaped_char
escaped String.[] = ""
escaped (String.◌∷◌ c s) = append (escaped_char c) (escaped s)

unfoldable pub quoted : String → String
unfolding escaped
quoted s = concat ("\"" ∷ escaped s ∷ "\"" ∷ [])
