-- ===== src/Operator/Refs.antt =====
-- `resolveFileRefs` of cmd/operator/render_clients.go. `os.ReadFile` is a parameter that does not
-- change while the loop runs: a text, or an error. The texts are taken to be valid UTF-8.
pub mod Cuts
pub mod Ends
pub mod Expands
use freeradius_k8s_operator.Shared.{
  ℕ, zero, suc, Char, String, code, Bool, ◌||◌, ◌&&◌, Option, none, some, List, [], ◌∷◌, append,
  concat, is_empty, nat_eq, leb, if◌then◌else◌,
}

-- What is left of a text behind a beginning, if it has it.
unfoldable pub strip_prefix : String → String → Option String
strip_prefix String.[] s = some s
strip_prefix (String.◌∷◌ c p) String.[] = none
strip_prefix (String.◌∷◌ c p) (String.◌∷◌ d s) =
    let rest = strip_prefix p s in if nat_eq (code c) (code d) then rest else none

-- One more character in front of what comes before the pattern.
abbrev pub later : Char → Option (String × String) → Option (String × String)
later c none = none
later c (some (before, rest)) = some (String.◌∷◌ c before, rest)

abbrev pub here : Option String → Option (String × String) → Option (String × String)
here none found = found
here (some rest) found = some ("", rest)

-- `strings.Index`: what comes before the first occurrence of a pattern that is not empty, and what
-- comes behind it.
unfoldable pub cut : String → String → Option (String × String)
unfolding strip_prefix
cut p String.[] = none
cut p (String.◌∷◌ c s) = here (strip_prefix p (String.◌∷◌ c s)) (later c (cut p s))

replaced : String → String → Option (String × String) → String
replaced s new none = s
replaced s new (some (before, rest)) = append before (append new rest)

-- `strings.Replace(s, old, new, 1)`
unfoldable pub replace_first : String → String → String → String
unfolding cut replaced
replace_first s old new = replaced s new (cut old s)

-- `unicode.IsSpace`
pub is_space : ℕ → Bool
is_space n =
    (leb 9 n && leb n 13)
    || nat_eq n 32
    || nat_eq n 133
    || nat_eq n 160
    || nat_eq n 5760
    || (leb 8192 n && leb n 8202)
    || nat_eq n 8232
    || nat_eq n 8233
    || nat_eq n 8239
    || nat_eq n 8287
    || nat_eq n 12288

pub trim_left : String → String
trim_left String.[] = ""
trim_left (String.◌∷◌ c s) =
    let rest = trim_left s in if is_space (code c) then rest else String.◌∷◌ c s

pub trim_right : String → String
trim_right String.[] = ""
trim_right (String.◌∷◌ c s) =
    let rest = trim_right s in if is_empty rest && is_space (code c) then "" else String.◌∷◌ c rest

-- `strings.TrimSpace`
unfoldable pub trim_space : String → String
unfolding trim_left trim_right is_space
trim_space s = trim_right (trim_left s)

abbrev pub marker : String
marker = "${file:"

-- The variable `ref`, from the variable `path`.
abbrev pub reference : String → String
reference path = append marker (append path "}")

module _ (read_file : String → Option String) where
  -- The end of the loop's body, on the answer to the request for the file.
  unfoldable pub with_data : String → String → Option String → Option String
  unfolding replace_first trim_space
  with_data content path none = none
  with_data content path (some found) =
      some (replace_first content (reference path) (trim_space found))

  -- The search for the end of the reference, in the text behind its beginning.
  unfoldable pub with_end : String → Option (String × String) → Option String
  unfolding with_data
  with_end content none = none
  with_end content (some (path, rest)) = with_data content path (read_file path)

  unfoldable pub with_start : String → Option (String × String) → Option String
  unfolding with_end cut
  with_start content none = none
  with_start content (some (before, rest)) = with_end content (cut "}" rest)

  -- The body of the loop: the new text, or none where the loop is left.
  unfoldable pub resolve_one : String → Option String
  unfolding with_start cut
  resolve_one content = with_start content (cut marker content)

  -- The loop, none when the fuel is used up.
  unfoldable pub resolve_file_refs : ℕ → String → Option String
  unfolding resolve_one
  resolve_file_refs zero content = none
  resolve_file_refs (suc fuel) content = elim (resolve_one content) [
    | none ↦ some content
    | some next ↦ resolve_file_refs fuel next
  ]
