-- ===== src/Renderer/Clients/Reader.antt =====
-- A reader of client sections, by FreeRADIUS's own syntax: one directive to a line, `client NAME {`
-- opens a section, `key = value` sets a value in it, and `}` closes it.
use freeradius_k8s_operator.Shared.{
  String, code, ◌&&◌, List, [], ◌∷◌, ◌++◌, Option, none, some, nat_eq, if◌then◌else◌, ◌==◌,
  split_at,
}

pub record Section : Type 0 where
  pub name : String
  pub settings : List (String × String)

-- The sections that are complete, and the open one.
pub record ReadState : Type 0 where
  pub closed : List Section
  pub current : Option Section

trim_left : String → String
trim_left String.[] = String.[]
trim_left (String.◌∷◌ c s) = if nat_eq (code c) b' ' then trim_left s else String.◌∷◌ c s

unfoldable pub words : String → List String
unfolding trim_left split_at
words line = split_at b' ' (trim_left line)

close_section : ReadState → ReadState
close_section st = elim st.current [
  | none ↦ st
  | some s ↦ record { closed = st.closed ++ s ∷ []; current = none }
]

set_value : String → String → ReadState → ReadState
set_value k v st = elim st.current [
  | none ↦ st
  | some s ↦ record st { current = some (record s { settings = s.settings ++ (k, v) ∷ [] }) }
]

open_section : String → ReadState → ReadState
open_section name st = record st { current = some (record { name = name; settings = [] }) }

-- A line that is none of the three changes nothing.
unfoldable pub read_words : ReadState → List String → ReadState
unfolding close_section set_value open_section
read_words st (w ∷ []) = if w == "}" then close_section st else st
read_words st (w ∷ x ∷ y ∷ []) =
    if w == "client" && y == "{"
    then open_section x st
    else if x == "="
    then set_value w y st
    else st
read_words st _ = st

unfoldable pub read_lines : ReadState → List String → ReadState
unfolding read_words
read_lines st [] = st
read_lines st (l ∷ ls) = read_lines (read_words st (words l)) ls

unfoldable pub read_sections : String → List Section
unfolding read_lines split_at
read_sections text =
    (read_lines (record { closed = []; current = none }) (split_at b'\n' text)).closed
