-- ===== src/Errors/Error.antt =====
-- `Error` of pkg/errors/errors.go and its functions. A Go error is nil, an `*Error` by its fields, or a
-- value of another type with its text, which may wrap an error.
use goupter.Prelude.{
  append, String, Bool, true, false, ◌&&◌, Option, none, some, ◌==◌, if◌then◌else◌,
}
use goupter.Prelude.Int.{ℤ, pos, ltb_ℤ, leb_ℤ, int_key}
use goupter.Errors.Codes.{code_success, code_internal_error}

-- `D` is the type of details.
pub data GoError (D : Type 0) : Type 0 where
  nil : GoError D
  app : ℤ → String → Option D → GoError D → GoError D
  other : String → GoError D → GoError D

pub record Error (D : Type 0) : Type 0 where
  pub code : ℤ
  pub message : String
  pub details : Option D
  pub cause : GoError D

-- An `*Error` as an error.
abbrev pub as_error : {D : Type 0} → Error D → GoError D
as_error e = GoError.app e.code e.message e.details e.cause

-- `err.(*Error)`, none where it is not ok, also for nil.
unfoldable pub as_app : {D : Type 0} → GoError D → Option (Error D)
as_app GoError.nil = none
as_app (GoError.app code message details cause) =
    some (record { code = code; message = message; details = details; cause = cause })
as_app (GoError.other s inner) = none

unfoldable pub is_nil : {D : Type 0} → GoError D → Bool
is_nil GoError.nil = true
is_nil (GoError.app code message details cause) = false
is_nil (GoError.other s inner) = false

module _ (format_int : ℤ → String) where
  -- `Error` of an error that is not nil; the text of another type is its own.
  unfoldable pub error_text : {D : Type 0} → GoError D → String
  error_text GoError.nil = ""
  error_text (GoError.other s inner) = s
  error_text (GoError.app code message details cause) =
      let rest = error_text cause in
      let head = append "code: " (append (format_int code) (append ", message: " message)) in
      if is_nil cause then head else append head (append ", cause: " rest)

  unfoldable pub from_error : {D : Type 0} → GoError D → Option (Error D)
  unfolding error_text as_app
  from_error err = elim err [
    | GoError.nil ↦ none
    | GoError.app code message details cause ↦
        some (record { code = code; message = message; details = details; cause = cause })
    | GoError.other s inner ↦ some (record {
      code = code_internal_error;
      message = s;
      details = none;
      cause = GoError.other s inner;
    })
  ]

  unfoldable pub get_message : {D : Type 0} → GoError D → String
  get_message GoError.nil = "success"
  get_message (GoError.app code message details cause) = message
  get_message (GoError.other s inner) = s

unfoldable pub new : {D : Type 0} → ℤ → String → Error D
new code message = record { code = code; message = message; details = none; cause = GoError.nil }

unfoldable pub wrap : {D : Type 0} → GoError D → ℤ → String → Error D
wrap err code message = record { code = code; message = message; details = none; cause = err }

unfoldable pub unwrap : {D : Type 0} → Error D → GoError D
unwrap e = e.cause

unfoldable pub with_cause : {D : Type 0} → Error D → GoError D → Error D
with_cause e cause = record e { cause = cause }

unfoldable pub with_details : {D : Type 0} → Error D → Option D → Error D
with_details e details = record e { details = details }

unfoldable pub with_message : {D : Type 0} → Error D → String → Error D
with_message e message = record e { message = message }

unfoldable pub http_status : {D : Type 0} → Error D → ℤ
http_status e =
    if leb_ℤ (pos 400) e.code && ltb_ℤ e.code (pos 600)
    then e.code
    else if e.code == code_success
    then pos 200
    else pos 500

-- `target` is none for a nil pointer.
unfoldable pub is : {D : Type 0} → GoError D → Option (Error D) → Bool
unfolding as_app is_nil
is err none = is_nil err
is err (some target) = elim (as_app err) [ none ↦ false | some e ↦ e.code == target.code ]

unfoldable pub is_code : {D : Type 0} → GoError D → ℤ → Bool
unfolding as_app
is_code err code = elim (as_app err) [ none ↦ false | some e ↦ e.code == code ]

unfoldable pub get_code : {D : Type 0} → GoError D → ℤ
get_code GoError.nil = code_success
get_code (GoError.app code message details cause) = code
get_code (GoError.other s inner) = code_internal_error
