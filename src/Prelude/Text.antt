-- ===== src/Prelude/Text.antt =====
-- Go's `strings` on texts, as far as the program uses it.
use Prim.Native.Nat.{ℕ}
use Prim.Native.Char.{Char, code}
use Prim.Native.String.{String, ◌++◌ as str_append}
use mathlib.Core.Bool.{Bool, true, false, not, ◌&&◌, ◌||◌}
use mathlib.Core.Option.{Option, none, some}
use mathlib.Core.List.{List, [], ◌∷◌}
use text.Mathlib.Text.{starts_with, ◌==◌ as str_eq}
use frpilot.Prelude.Lists.{keep}
use frpilot.Prelude.Tests.{leb, ◌==◌, if◌then◌else◌}

-- Text is joined from the right.
infixr 65 ◌⧺◌
abbrev pub ◌⧺◌ : String → String → String
s ⧺ t = str_append s t

-- unicode.IsSpace
abbrev pub is_space : ℕ → Bool
is_space c =
    (leb 9 c && leb c 13)
    || c == 0x20
    || c == 0x85
    || c == 0xa0
    || c == 0x1680
    || (leb 0x2000 c && leb c 0x200a)
    || c == 0x2028
    || c == 0x2029
    || c == 0x202f
    || c == 0x205f
    || c == 0x3000

unfoldable pub trim_left : String → String
trim_left String.[] = ""
trim_left (String.◌∷◌ c s) = if is_space (code c) then trim_left s else String.◌∷◌ c s

unfoldable pub trim_right : String → String
trim_right String.[] = ""
trim_right (String.◌∷◌ c s) =
    let rest = trim_right s in if str_eq rest "" && is_space (code c) then "" else String.◌∷◌ c rest

-- strings.TrimSpace
unfoldable pub trim_space : String → String
unfolding trim_left trim_right
trim_space s = trim_right (trim_left s)

-- Whether some code point passes the test.
unfoldable pub any_char : (ℕ → Bool) → String → Bool
any_char p String.[] = false
any_char p (String.◌∷◌ c s) = if p (code c) then true else any_char p s

-- strings.HasSuffix(s, ":")
unfoldable pub ends_in_colon : String → Bool
ends_in_colon String.[] = false
ends_in_colon (String.◌∷◌ c String.[]) = code c == b':'
ends_in_colon (String.◌∷◌ c (String.◌∷◌ d s)) = ends_in_colon (String.◌∷◌ d s)

-- The character at the front of the first text.
abbrev pub push_front : Char → List String → List String
push_front c [] = String.◌∷◌ c "" ∷ []
push_front c (w ∷ ws) = String.◌∷◌ c w ∷ ws

-- The text cut at each code point that passes the test; with the test for one code point this is
-- strings.Split.
unfoldable pub split_by : (ℕ → Bool) → String → List String
split_by p String.[] = "" ∷ []
split_by p (String.◌∷◌ c s) =
    let rest = split_by p s in if p (code c) then "" ∷ rest else push_front c rest

abbrev pub lines : String → List String
lines s = split_by (λ c. c == 10) s

-- strings.Fields
abbrev pub fields : String → List String
fields s = keep (λ w. not (str_eq w "")) (split_by is_space s)

-- The text before and after the first code point of this kind: strings.Index and the two slices.
unfoldable pub cut_at : ℕ → String → Option (String × String)
cut_at k String.[] = none
cut_at k (String.◌∷◌ c s) =
    let rest = cut_at k s in
    if code c == k
    then some ("", s)
    else elim rest [ none ↦ none | some (before, after) ↦ some (String.◌∷◌ c before, after) ]

-- What is left of a text after a prefix that it has.
unfoldable pub after_prefix : String → String → String
after_prefix s String.[] = s
after_prefix String.[] (String.◌∷◌ c t) = ""
after_prefix (String.◌∷◌ d s) (String.◌∷◌ c t) = after_prefix s t

-- What stands after the last code point of this kind.
unfoldable pub last_cut : ℕ → String → Option String
last_cut k String.[] = none
last_cut k (String.◌∷◌ c s) = elim (last_cut k s) [
  | some after ↦ some after
  | none ↦ if code c == k then some s else none
]

-- The text after the last code point of this kind, or all of it.
unfoldable pub after_last : ℕ → String → String
unfolding last_cut
after_last k s = elim (last_cut k s) [ none ↦ s | some after ↦ after ]

-- strings.Contains
unfoldable pub contains : String → String → Bool
contains String.[] t = str_eq t ""
contains (String.◌∷◌ c s) t = starts_with (String.◌∷◌ c s) t || contains s t

-- The text after the first place where `t` stands: strings.Index and a slice.
unfoldable pub after_first : String → String → Option String
after_first t String.[] = if str_eq t "" then some "" else none
after_first t (String.◌∷◌ c s) =
    let rest = after_first t s in
    if starts_with (String.◌∷◌ c s) t then some (after_prefix (String.◌∷◌ c s) t) else rest

-- strings.TrimPrefix
abbrev pub trim_prefix : String → String → String
trim_prefix p s = if starts_with s p then after_prefix s p else s

-- strings.TrimSuffix for one code point.
unfoldable pub trim_end : ℕ → String → String
trim_end k String.[] = ""
trim_end k (String.◌∷◌ c s) =
    let rest = trim_end k s in if str_eq s "" && code c == k then "" else String.◌∷◌ c rest

-- strings.Trim for one code point.
unfoldable pub strip_left : ℕ → String → String
strip_left k String.[] = ""
strip_left k (String.◌∷◌ c s) = if code c == k then strip_left k s else String.◌∷◌ c s

unfoldable pub strip_right : ℕ → String → String
strip_right k String.[] = ""
strip_right k (String.◌∷◌ c s) =
    let rest = strip_right k s in if str_eq rest "" && code c == k then "" else String.◌∷◌ c rest
