-- ===== src/Config/Values.antt =====
-- The values that pkg/config/validator.go reports and inspects by reflection, its errors, and what it
-- calls of Go's library.
use goupter.Prelude.{
  append, String, Bool, true, false, ◌||◌, Option, List, [], ◌∷◌, ◌==◌, ℕ, string_key,
  if◌then◌else◌,
}
use goupter.Prelude.Int.{ℤ}

-- An `any`, by the kind that `reflect` sees and, for integers, by the types that a switch tells apart.
pub data AnyValue (F : Type 0) : Type 0 where
  nil : AnyValue F
  text : String → AnyValue F
  int : ℤ → AnyValue F
  int64 : ℤ → AnyValue F
  -- `int8` to `int32`, and named types such as `time.Duration`.
  other_int : ℤ → AnyValue F
  uint : ℕ → AnyValue F
  float : F → AnyValue F
  flag : Bool → AnyValue F
  -- A slice or an array, by its length.
  sequence : ℕ → AnyValue F
  -- A map, by its length.
  mapping : ℕ → AnyValue F
  -- A pointer, true for a nil one.
  pointer : Bool → AnyValue F
  -- A struct, a channel or a function.
  other : AnyValue F

-- What is used of `time`, `regexp`, `net` and `fmt`.
pub record Std : Type 0 where
  -- `time.ParseDuration`, none for an error
  pub parse_duration : String → Option ℤ
  -- `regexp.MustCompile(pattern).MatchString(s)`, for patterns that compile
  pub match_string : String → String → Bool
  -- `net.ParseIP(s) != nil`
  pub parse_ip : String → Bool
  -- `fmt.Sprintf("%d", n)`
  pub format_int : ℤ → String

-- `fields.value` is nil where the code leaves it out.
pub record ValidationError (F : Type 0) : Type 0 where
  pub field_name : String
  pub message : String
  pub value : AnyValue F

unfoldable pub contains_string : List String → String → Bool
contains_string [] s = false
contains_string (item ∷ slice) s = (item == s) || contains_string slice s

-- `strings.Join`
unfoldable pub join : List String → String → String
join [] sep = ""
join (a ∷ []) sep = a
join (a ∷ b ∷ rest) sep = append a (append sep (join (b ∷ rest) sep))

-- The tests of a row, each with the error that is appended where it holds, in order.
unfoldable pub reported : {F : Type 0} → List (Bool × ValidationError F) → List (ValidationError F)
reported [] = []
reported ((failed, e) ∷ checks) = let rest = reported checks in if failed then e ∷ rest else rest

-- `Error` of one error and of several.
unfoldable pub error_text : {F : Type 0} → ValidationError F → String
error_text e = append "配置校验失败 [" (append e.field_name (append "]: " e.message))

unfoldable pub error_texts : {F : Type 0} → List (ValidationError F) → List String
unfolding error_text
error_texts [] = []
error_texts (e ∷ es) = error_text e ∷ error_texts es

unfoldable pub errors_text : {F : Type 0} → List (ValidationError F) → String
unfolding error_texts join
errors_text es = join (error_texts es) "; "

unfoldable pub has_errors : {F : Type 0} → List (ValidationError F) → Bool
has_errors [] = false
has_errors (e ∷ es) = true
