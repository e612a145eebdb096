-- ===== src/Codegen/RouteLines.antt =====
-- The lines that crud.go writes at the head of a function are those that it recognises.
use mathlib.Core.List.{append_assoc as list_append_assoc}
use text.Mathlib.TextLemmas.{cons-append, nil-append, append_assoc}
use text.Mathlib.TextPositions.{
  slice-append_left, slice-append_right, len-append, starts_with-append, eq_refl,
}
use goupter.Middleware.Auth.{begins_with}
use goupter.Prelude.{
  ℕ, ◌+◌, append, ◌≡◌, ◌≢◌, refl, sym, ap, ◌∙◌, String, Bool, true, List, [], ◌∷◌, ◌++◌, ◌==◌,
  string_key, nat_key, arith, ◌||◌,
}
use goupter.Codegen.Table.{TableInfo, trim_prefix}
use goupter.Codegen.Strings.{
  contains_text, count_of, has_prefix, split_at, trim_space, space_left, space_right,
}
use goupter.Codegen.StringLaws.{
  count_of-append, split_at-append, split_at-none, contains_text-append, space_right-append,
}
use goupter.Codegen.Crud.{
  register_name, func_of_line, funcs_of_lines, parse_existing_route_funcs, is_existing, func_line,
}

-- The name of the structure has neither a parenthesis nor a line end.
abbrev pub IsPlainName : TableInfo → Type 0
IsPlainName t = (count_of b'(' t.struct_name ≡ 0) × (count_of 10 t.struct_name ≡ 0)

pub is_existing-append :
    (name : String) (xs ys : List String)
    → is_existing name (xs ++ ys) ≡ (is_existing name xs || is_existing name ys)
unfolding is_existing
is_existing-append name [] ys = refl
is_existing-append name (x ∷ xs) ys = ground (arith, is_existing-append name xs ys)

funcs_of_lines-append :
    (xs ys : List String) → funcs_of_lines (xs ++ ys) ≡ funcs_of_lines xs ++ funcs_of_lines ys
unfolding funcs_of_lines
funcs_of_lines-append [] ys = refl
funcs_of_lines-append (x ∷ xs) ys =
    ap (λ (l : List String). func_of_line x ++ l) (funcs_of_lines-append xs ys)
    ∙ sym (list_append_assoc (func_of_line x) (funcs_of_lines xs) (funcs_of_lines ys))

newline : (s : String) → append "\n" s ≡ String.◌∷◌ "\n" s
newline s = cons-append "\n" "" s ∙ ap (String.◌∷◌ "\n") (nil-append s)

-- A text after a line end is read for itself.
pub existing-newline :
    (before after : String)
    → parse_existing_route_funcs (append before (append "\n" after))
      ≡ parse_existing_route_funcs before ++ parse_existing_route_funcs after
unfolding parse_existing_route_funcs
existing-newline before after =
    ap (λ (s : String). funcs_of_lines (split_at 10 (append before s))) (newline after)
    ∙ (ap funcs_of_lines (split_at-append 10 "\n" before after refl)
        ∙ funcs_of_lines-append (split_at 10 before) (split_at 10 after))

abbrev parameters : String
parameters = "(r *gin.RouterGroup, db *gorm.DB) {"

-- The head of a function with its fixed texts joined.
whole_line :
    (t : TableInfo)
    → func_line t ≡ append "func Register" (append t.struct_name (append "Routes" parameters))
unfolding func_line register_name
whole_line t =
    ap (append "func ") (
      append_assoc "Register" (append t.struct_name "Routes") parameters
      ∙ ap (append "Register") (append_assoc t.struct_name "Routes" parameters))
    ∙ sym (append_assoc "func " "Register" (append t.struct_name (append "Routes" parameters)))

func_line-left :
    (t : TableInfo) → func_line t ≡ append (append "func " (register_name t)) parameters
unfolding func_line
func_line-left t = sym (append_assoc "func " (register_name t) parameters)

abbrev is_blank : String → Bool
is_blank s = s == ""

not_empty : parameters ≢ ""
not_empty h = cc

space_right-func_line : (t : TableInfo) → space_right (func_line t) ≡ func_line t
unfolding space_right
space_right-func_line t =
    rw (func_line-left t)
      (space_right-append (append "func " (register_name t)) parameters refl not_empty)

first_char : (s : String) → append "func " s ≡ String.◌∷◌ "f" (append "unc " s)
first_char s = cons-append "f" "unc " s

trim_space-func_line : (t : TableInfo) → trim_space (func_line t) ≡ func_line t
unfolding trim_space space_left func_line
trim_space-func_line t =
    ap space_left (space_right-func_line t)
    ∙ (ap space_left (first_char (append (register_name t) parameters))
        ∙ sym (first_char (append (register_name t) parameters)))

register_name-count :
    (sep : ℕ) (t : TableInfo)
    → count_of sep (register_name t)
      ≡ count_of sep "Register" + (count_of sep t.struct_name + count_of sep "Routes")
unfolding register_name
register_name-count sep t =
    count_of-append sep "Register" (append t.struct_name "Routes")
    ∙ ap (λ n. count_of sep "Register" + n) (count_of-append sep t.struct_name "Routes")

no_parenthesis :
    (t : TableInfo) → IsPlainName t → count_of b'(' (append "func " (register_name t)) ≡ 0
unfolding count_of
no_parenthesis t plain =
    omega
      (arith, count_of-append b'(' "func " (register_name t), register_name-count b'(' t, plain.0)

no_newline : (t : TableInfo) → IsPlainName t → count_of 10 (func_line t) ≡ 0
unfolding count_of func_line
no_newline t plain = omega (
  arith,
  count_of-append 10 "func " (append (register_name t) parameters),
  count_of-append 10 (register_name t) parameters,
  register_name-count 10 t,
  plain.1,
)

trim_prefix-append : (prefix s : String) → trim_prefix prefix (append prefix s) ≡ s
unfolding trim_prefix begins_with
trim_prefix-append prefix s = ground (
  arith,
  len-append prefix s,
  slice-append_left prefix s,
  slice-append_right prefix s,
  eq_refl prefix,
)

has_prefix-func_line : (t : TableInfo) → has_prefix (func_line t) "func Register" ≡ true
unfolding has_prefix
has_prefix-func_line t =
    rw (whole_line t)
      (starts_with-append "func Register" (append t.struct_name (append "Routes" parameters)))

contains_text-func_line : (t : TableInfo) → contains_text (func_line t) "Routes(" ≡ true
unfolding contains_text
contains_text-func_line t =
    ap (λ (s : String). contains_text s "Routes(") (whole_line t)
    ∙ contains_text-append "func Register" (append t.struct_name (append "Routes" parameters))
        "Routes(" (contains_text-append t.struct_name (append "Routes" parameters) "Routes(" refl)

split_at-func_line :
    (t : TableInfo)
    → IsPlainName t
    → (rest : List String) × (split_at b'(' (func_line t) ≡ append "func " (register_name t) ∷ rest)
split_at-func_line t plain = (
  split_at b'(' "r *gin.RouterGroup, db *gorm.DB) {",
  ap (split_at b'(') (func_line-left t)
      ∙ (split_at-append b'(' "(" (append "func " (register_name t))
            "r *gin.RouterGroup, db *gorm.DB) {" refl
          ∙ ap (λ (l : List String). l ++ split_at b'(' "r *gin.RouterGroup, db *gorm.DB) {")
              (split_at-none b'(' (append "func " (register_name t)) (no_parenthesis t plain))),
)

func_of_line_lem :
    (text line name : String) (rest : List String)
    → trim_space text ≡ line
    → has_prefix line "func Register" ≡ true
    → contains_text line "Routes(" ≡ true
    → split_at b'(' line ≡ name ∷ rest
    → func_of_line text ≡ trim_prefix "func " name ∷ []
unfolding func_of_line trim_prefix
func_of_line_lem text line name rest a b c d = rw (a, b, c, d) refl

func_of_line-func_line :
    (t : TableInfo) → IsPlainName t → func_of_line (func_line t) ≡ register_name t ∷ []
func_of_line-func_line t plain =
    let (rest, split) = split_at-func_line t plain in
    func_of_line_lem (func_line t) (func_line t) (append "func " (register_name t)) rest
      (trim_space-func_line t) (has_prefix-func_line t) (contains_text-func_line t) split
    ∙ ap (λ (s : String). s ∷ []) (trim_prefix-append "func " (register_name t))

pub parse_existing-func_line :
    (t : TableInfo)
    → IsPlainName t
    → parse_existing_route_funcs (func_line t) ≡ register_name t ∷ []
unfolding parse_existing_route_funcs funcs_of_lines
parse_existing-func_line t plain =
    ap funcs_of_lines (split_at-none 10 (func_line t) (no_newline t plain))
    ∙ ap (λ (l : List String). l ++ []) (func_of_line-func_line t plain)
