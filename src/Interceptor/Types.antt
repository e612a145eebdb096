-- ===== src/Interceptor/Types.antt =====
-- What the interceptors of pkg/server/interceptor/interceptor.go work on. `S` is the state of all that
-- a call may change, `Q` the request, `P` what a panic carries. The stream interceptors take the
-- context from the stream and pass a stream with another context on, so that both kinds
-- of interceptor are functions of a context and a request.
use goupter.Prelude.{String, Bool, Option, none, List}
use goupter.Prelude.Int.{ℤ}

-- What is used of grpc's errors.
pub record Errors : Type 1 where
  pub E : Type 0
  pub Code : Type 0
  -- `status.Error`
  pub status : Code → String → E
  -- `err.Error()`
  pub text : E → String
  -- `status.Code(err)` and `code.String()`
  pub code_of : E → Code
  pub code_text : Code → String
  pub ok : Code
  pub internal : Code
  pub unauthenticated : Code
  pub resource_exhausted : Code

-- `metadata` is none where there is none; `user_id` and `request_id` are the values under the keys of
-- this package.
pub record Context : Type 0 where
  pub metadata : Option (String → List String)
  pub peer : Option String
  pub user_id : Option String
  pub request_id : Option String
  pub timeouts : List ℤ

pub record Info : Type 0 where
  pub full_method : String
  pub is_client_stream : Bool
  pub is_server_stream : Bool

pub data Outcome (R P : Type 0) : Type 0 where
  returned : R → Outcome R P
  panicked : P → Outcome R P

abbrev pub Handler : Type 0 → Type 0 → Type 0 → Type 0 → Type 0
Handler S Q R P = Context → Q → S → S × Outcome R P

abbrev pub Interceptor : Type 0 → Type 0 → Type 0 → Type 0 → Type 0
Interceptor S Q R P = Context → Q → Info → Handler S Q R P → S → S × Outcome R P

-- The results of a kind of call: the error of one, and the result that has no response.
pub record Results (E R : Type 0) : Type 0 where
  pub err_of : R → Option E
  pub of_err : Option E → R

-- A unary handler gives a response, none for nil, and an error.
abbrev pub unary_results : {E A : Type 0} → Results E (Option A × Option E)
unary_results = record { err_of = λ r. r.1; of_err = λ err. (none, err) }

abbrev pub stream_results : {E : Type 0} → Results E (Option E)
stream_results = record { err_of = λ err. err; of_err = λ err. err }

pub data FieldValue (Q A P : Type 0) : Type 0 where
  text : String → FieldValue Q A P
  duration : ℤ → FieldValue Q A P
  flag : Bool → FieldValue Q A P
  request : Q → FieldValue Q A P
  response : A → FieldValue Q A P
  panic : P → FieldValue Q A P

pub data LogLevel : Type 0 where
  info_level : LogLevel
  warn_level : LogLevel
  error_level : LogLevel

-- A logger, as a change of the state.
abbrev pub Logger : Type 0 → Type 0 → Type 0 → Type 0 → Type 0
Logger S Q A P = LogLevel → String → List (String × FieldValue Q A P) → S → S
