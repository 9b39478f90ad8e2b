-- ===== src/Shared/Text.antt =====
-- Texts: what the code uses of Go's `strings` and `fmt.Sprintf`, lines and words.
use Prim.Native.Nat.{ℕ, suc}
use Prim.Native.Char.{Char, code}
use Prim.Native.String.{String, [], ◌∷◌}
use mathlib.Core.Path.{◌≡◌, refl, ap}
use mathlib.Core.Bool.{Bool, false, ◌||◌}
use mathlib.Core.Logic.{◌≢◌}
use mathlib.Core.List.{List, ◌++◌}
use native.Mathlib.Omega.{arith}
use text.Mathlib.Text.{◌==◌}
use freeradius_k8s_operator.Shared.Lists.{All}
use freeradius_k8s_operator.Shared.Tests.{nat_eq, if◌then◌else◌}

-- `s + t`, by clauses, so that it computes on a known beginning.
unfoldable pub append : String → String → String
append [] t = t
append (c ∷ s) t = c ∷ append s t

-- The pieces of a formatted text, one after the other.
abbrev pub concat : List String → String
concat List.[] = []
concat (List.◌∷◌ s List.[]) = s
concat (List.◌∷◌ s ss) = append s (concat ss)

-- `strings.Join`
abbrev pub join : String → List String → String
join sep List.[] = []
join sep (List.◌∷◌ s List.[]) = s
join sep (List.◌∷◌ s ss) = append s (append sep (join sep ss))

abbrev pub is_empty : String → Bool
is_empty s = s == ""

-- A look-up in a set of texts.
abbrev pub is_in : String → List String → Bool
is_in s List.[] = false
is_in s (List.◌∷◌ t ts) = s == t || is_in s ts

-- Whole lines, each with its line break.
abbrev pub unlines : List String → String
unlines List.[] = []
unlines (List.◌∷◌ l ls) = append l (append "\n" (unlines ls))

pub append-nil_text : (s : String) → append s "" ≡ s
unfolding append
append-nil_text [] = refl
append-nil_text (c ∷ s) = ap (λ w. c ∷ w) (append-nil_text s)

pub append_assoc_text : (s t u : String) → append (append s t) u ≡ append s (append t u)
unfolding append
append_assoc_text [] t u = refl
append_assoc_text (c ∷ s) t u = ap (λ w. c ∷ w) (append_assoc_text s t u)

-- Every character's code satisfies `P`.
abbrev pub AllChars : (ℕ → Type 0) → String → Type 0
AllChars P [] = Unit
AllChars P (c ∷ s) = P (code c) × AllChars P s

pub AllChars-append :
    (P : ℕ → Type 0) (s t : String) → AllChars P s → AllChars P t → AllChars P (append s t)
unfolding append
AllChars-append P [] t h k = k
AllChars-append P (c ∷ s) t (p, h) k = (p, AllChars-append P s t h k)

pub AllChars-concat :
    (P : ℕ → Type 0) (ss : List String) → All (AllChars P) ss → AllChars P (concat ss)
AllChars-concat P List.[] h = tt
AllChars-concat P (List.◌∷◌ s List.[]) (p, h) = p
AllChars-concat P (List.◌∷◌ s (List.◌∷◌ t ss)) (p, h) =
    AllChars-append P s (concat (List.◌∷◌ t ss)) p (AllChars-concat P (List.◌∷◌ t ss) h)

pub AllChars-imp :
    (P Q : ℕ → Type 0) → ((n : ℕ) → P n → Q n) → (s : String) → AllChars P s → AllChars Q s
AllChars-imp P Q f [] h = tt
AllChars-imp P Q f (c ∷ s) (p, h) = (f (code c) p, AllChars-imp P Q f s h)

-- The text up to the first character with the code `sep`, and what stands behind that character;
-- at the end of the text the rest is `[]`.
cons_head : Char → List String → List String
cons_head c List.[] = List.◌∷◌ (c ∷ []) List.[]
cons_head c (List.◌∷◌ w ws) = List.◌∷◌ (c ∷ w) ws

-- The pieces of a text between the characters with the code `sep`.
unfoldable pub split_at : ℕ → String → List String
unfolding cons_head
split_at sep [] = List.◌∷◌ "" List.[]
split_at sep (c ∷ s) =
    let rest = split_at sep s in if nat_eq (code c) sep then List.◌∷◌ "" rest else cons_head c rest

-- A piece without the separator, and a separator behind it.
pub split_at-append :
    (sep : ℕ) (d : Char) (w s : String)
    → AllChars (λ n. n ≢ sep) w
    → code d ≡ sep
    → split_at sep (append w (d ∷ s)) ≡ List.◌∷◌ w (split_at sep s)
unfolding split_at append
split_at-append sep d [] s h e = ground arith
split_at-append sep d (c ∷ w) s (p, h) e = ground (arith, split_at-append sep d w s h e)

pub split_at_last :
    (sep : ℕ) (w : String) → AllChars (λ n. n ≢ sep) w → split_at sep w ≡ List.◌∷◌ w List.[]
unfolding split_at
split_at_last sep [] h = refl
split_at_last sep (c ∷ w) (p, h) = ground (arith, split_at_last sep w h)

-- The number of characters.
abbrev pub size : String → ℕ
size [] = 0
size (c ∷ s) = suc (size s)

-- A code that is none of the characters of a text.
abbrev pub NotIn : String → ℕ → Type 0
NotIn [] n = Unit
NotIn (c ∷ s) n = (n ≢ code c) × NotIn s n

-- No text stands twice in the list.
abbrev pub AreDistinct : List String → Type 0
AreDistinct List.[] = Unit
AreDistinct (List.◌∷◌ s ss) = (is_in s ss ≡ false) × AreDistinct ss

abbrev tail : String → String
tail [] = []
tail (c ∷ s) = s

-- A common beginning can be taken off.
pub append-cancel : (s t u : String) → append s t ≡ append s u → t ≡ u
unfolding append
append-cancel [] t u e = e
append-cancel (c ∷ s) t u e = append-cancel s t u (ap tail e)

pub unlines-append : (xs ys : List String) → unlines (xs ++ ys) ≡ append (unlines xs) (unlines ys)
unfolding append
unlines-append List.[] ys = refl
unlines-append (List.◌∷◌ x xs) ys = rw (unlines-append xs ys) (simp append_assoc_text refl)
