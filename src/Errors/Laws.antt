-- ===== src/Errors/Laws.antt =====
-- What is kept of an error on its way into a response.
use goupter.Prelude.{String, ◌≡◌, ◌≢◌, inl, inr, refl, ◌⊎◌, true, false, Option, none, some, arith}
use goupter.Prelude.Int.{ℤ, pos, ◌≤ℤ◌, int_eqb_iff}
use goupter.Errors.Codes.{code_success, code_internal_error}
use goupter.Errors.Error.{
  GoError, Error, as_error, is_nil, from_error, get_message, get_code, http_status, is_code, is,
  wrap,
}
use goupter.Errors.Response.{Reply, respond_error, abort, write_json}

-- What a business error has to say beside its message; no other error has such.
pub details_of : {D : Type 0} → GoError D → Option D
details_of GoError.nil = none
details_of (GoError.app code message details cause) = details
details_of (GoError.other s inner) = none

pub trace_text : Option String → String
trace_text none = ""
trace_text (some id) = id

-- An error that is not nil is answered with HTTP status 200 and with its code, its message and the details
-- of a business error in the body, whether the chain goes on or is aborted; the trace id is in the
-- body of the first only. A nil error makes both panic.
pub respond_error-get_code :
    {D : Type 0} (format_int : ℤ → String) (trace : Option String) (err : GoError D)
    → ((is_nil err ≡ true)
        × (respond_error format_int trace err ≡ none)
        × (abort format_int err ≡ none))
      ⊎ ((is_nil err ≡ false)
          × (respond_error format_int trace err
              ≡ some (
                  Reply.json (pos 200) (record {
                    code = get_code err;
                    message = get_message format_int err;
                    payload = details_of err;
                    trace_id = trace_text trace;
                  })))
          × (abort format_int err
              ≡ some (
                  Reply.abort_json (pos 200) (record {
                    code = get_code err;
                    message = get_message format_int err;
                    payload = details_of err;
                    trace_id = "";
                  }))))
unfolding details_of trace_text write_json respond_error abort from_error get_code get_message
    is_nil
respond_error-get_code format_int trace GoError.nil = inl (refl, refl, refl)
respond_error-get_code format_int none (GoError.app code message details cause) =
    inr (refl, refl, refl)
respond_error-get_code format_int (some id) (GoError.app code message details cause) =
    inr (refl, refl, refl)
respond_error-get_code format_int none (GoError.other s inner) = inr (refl, refl, refl)
respond_error-get_code format_int (some id) (GoError.other s inner) = inr (refl, refl, refl)

-- The HTTP status of an error is its code where that is from 400 to 599, 200 for code 0, and 500
-- for every other code.
pub http_status-code :
    {D : Type 0} (e : Error D)
    → ((http_status e ≡ e.code) × (pos 400 ≤ℤ e.code) × (e.code ≤ℤ pos 599))
      ⊎ (((http_status e ≡ pos 200) × (e.code ≡ pos 0))
          ⊎ ((http_status e ≡ pos 500)
              × (e.code ≢ pos 0)
              × ((e.code ≤ℤ pos 399) ⊎ (pos 600 ≤ℤ e.code))))
unfolding http_status
http_status-code e = ground (arith, int_eqb_iff e.code code_success)

-- What wraps a business error in an error of another type hides it: the code is that of an internal error,
-- no code and no target is matched, and the conversion makes a new error with the outer text, which
-- keeps the wrapped one as its cause only.
pub get_code_wrapped :
    {D : Type 0} (format_int : ℤ → String) (text : String) (e : Error D)
    → let outer = GoError.other text (as_error e) in
      (get_code outer ≡ code_internal_error)
      × (is outer (some e) ≡ false)
      × (is_code outer e.code ≡ false)
      × (from_error format_int outer ≡ some (wrap outer code_internal_error text))
unfolding get_code is is_code from_error wrap
get_code_wrapped format_int text e = (refl, refl, refl, refl)
