-- ===== src/Errors/Response.antt =====
-- pkg/response/response.go: the envelope of every JSON answer. `trace` is the text under the key
-- "trace_id" of gin's context, none where there is no text.
use goupter.Prelude.{String, Option, none, some}
use goupter.Prelude.Int.{ℤ, pos}
use goupter.Errors.Codes.{code_success}
use goupter.Errors.Error.{GoError, from_error}

pub record Response (D : Type 0) : Type 0 where
  pub code : ℤ
  pub message : String
  pub payload : Option D
  pub trace_id : String

-- `page` and `page_size` are `int`, `total` is `int64`.
pub record PageData (L : Type 0) : Type 0 where
  pub list : L
  pub total : ℤ
  pub page : ℤ
  pub page_size : ℤ

-- What is written: the HTTP status and the body, and whether the chain is aborted.
pub data Reply (D : Type 0) : Type 0 where
  json : ℤ → Response D → Reply D
  abort_json : ℤ → Response D → Reply D

unfoldable pub write_json : {D : Type 0} → Option String → ℤ → String → Option D → Reply D
write_json trace code message payload = Reply.json (pos 200) (record {
  code = code;
  message = message;
  payload = payload;
  trace_id = elim trace [ none ↦ "" | some id ↦ id ];
})

unfoldable pub success : {D : Type 0} → Option String → Option D → Reply D
unfolding write_json
success trace payload = write_json trace code_success "success" payload

-- None is the panic on the fields of a nil `*Error`.
unfoldable pub respond_error :
    {D : Type 0} → (ℤ → String) → Option String → GoError D → Option (Reply D)
unfolding write_json
respond_error format_int trace err = elim (from_error format_int err) [
  | none ↦ none
  | some e ↦ some (write_json trace e.code e.message e.details)
]

unfoldable pub abort : {D : Type 0} → (ℤ → String) → GoError D → Option (Reply D)
abort format_int err = elim (from_error format_int err) [
  | none ↦ none
  | some e ↦ some (
      Reply.abort_json (pos 200)
        (record { code = e.code; message = e.message; payload = e.details; trace_id = "" }))
]
