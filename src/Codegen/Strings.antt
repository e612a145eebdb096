-- ===== src/Codegen/Strings.antt =====
-- The functions of Go's package `strings` that the generators call, on texts of characters. `ToLower` and
-- `ToUpper` stay parameters of their callers.
use Prim.Native.Char.{Char, code}
use Prim.Native.String.{len}
use text.Mathlib.Text.{starts_with}
use goupter.Prelude.{
  ℕ, zero, suc, ◌-◌, append, String, Bool, true, false, Option, none, some, List, [], ◌∷◌, ◌==◌,
  string_key, nat_key, leb, ◌&&◌, ◌||◌, if◌then◌else◌,
}

-- A character before the first text.
unfoldable pub cons_first : Char → List String → List String
cons_first c [] = String.◌∷◌ c "" ∷ []
cons_first c (first ∷ others) = String.◌∷◌ c first ∷ others

-- `strings.Split` at one character.
unfoldable pub split_at : ℕ → String → List String
unfolding cons_first
split_at sep String.[] = "" ∷ []
split_at sep (String.◌∷◌ c s) =
    let rest = split_at sep s in if code c == sep then "" ∷ rest else cons_first c rest

-- `strings.Trim` of one character: at the left, at the right, at both.
unfoldable pub trim_left : ℕ → String → String
trim_left cut String.[] = ""
trim_left cut (String.◌∷◌ c s) =
    let rest = trim_left cut s in if code c == cut then rest else String.◌∷◌ c s

unfoldable pub trim_right : ℕ → String → String
trim_right cut String.[] = ""
trim_right cut (String.◌∷◌ c s) =
    let rest = trim_right cut s in if (code c == cut) && (rest == "") then "" else String.◌∷◌ c rest

unfoldable pub trim_of : ℕ → String → String
unfolding trim_left trim_right
trim_of cut s = trim_left cut (trim_right cut s)

-- White space as Unicode has it.
abbrev pub is_space : ℕ → Bool
is_space c =
    (leb 9 c && leb c 13)
    || ((c == 32)
        || ((c == 0x85)
            || ((c == 0xA0)
                || ((c == 0x1680)
                    || ((leb 0x2000 c && leb c 0x200A)
                        || ((c == 0x2028)
                            || ((c == 0x2029)
                                || ((c == 0x202F) || ((c == 0x205F) || (c == 0x3000))))))))))

unfoldable pub space_left : String → String
space_left String.[] = ""
space_left (String.◌∷◌ c s) =
    let rest = space_left s in if is_space (code c) then rest else String.◌∷◌ c s

unfoldable pub space_right : String → String
space_right String.[] = ""
space_right (String.◌∷◌ c s) =
    let rest = space_right s in if is_space (code c) && (rest == "") then "" else String.◌∷◌ c rest

unfoldable pub trim_space : String → String
unfolding space_left space_right
trim_space s = space_left (space_right s)

unfoldable pub has_prefix : String → String → Bool
has_prefix s prefix = starts_with s prefix

unfoldable pub has_suffix : String → String → Bool
has_suffix String.[] suffix = "" == suffix
has_suffix (String.◌∷◌ c s) suffix = (String.◌∷◌ c s == suffix) || has_suffix s suffix

unfoldable pub contains_text : String → String → Bool
contains_text String.[] part = "" == part
contains_text (String.◌∷◌ c s) part = starts_with (String.◌∷◌ c s) part || contains_text s part

-- `strings.Count` of one character.
unfoldable pub count_of : ℕ → String → ℕ
count_of sep String.[] = 0
count_of sep (String.◌∷◌ c s) =
    let rest = count_of sep s in if code c == sep then suc rest else rest

-- `strings.ReplaceAll` of a text that is not empty: `skip` characters of a match are left to pass.
unfoldable pub replace_from : ℕ → String → String → String → String
replace_from skip old new String.[] = ""
replace_from (suc skip) old new (String.◌∷◌ c s) = replace_from skip old new s
replace_from zero old new (String.◌∷◌ c s) = elim (starts_with (String.◌∷◌ c s) old) [
  | true ↦ append new (replace_from (len old - 1) old new s)
  | false ↦ String.◌∷◌ c (replace_from 0 old new s)
]

unfoldable pub replace_all : String → String → String → String
unfolding replace_from
replace_all s old new = replace_from 0 old new s

-- The text before the first place where another one stands, which is not empty, and the text from there.
unfoldable pub cut_at : String → String → Option (String × String)
cut_at part String.[] = none
cut_at part (String.◌∷◌ c s) =
    let rest : Option (String × String) = elim (cut_at part s) [
      | none ↦ none
      | some (before, from) ↦ some (String.◌∷◌ c before, from)
    ] in
    if starts_with (String.◌∷◌ c s) part then some ("", String.◌∷◌ c s) else rest

unfoldable pub drop_first : String → String
drop_first String.[] = ""
drop_first (String.◌∷◌ c s) = s
