-- ===== src/Examples/Errors.antt =====
-- Examples about pkg/errors and pkg/response/response.go.
use goupter.Prelude.{
  String, ◌≡◌, ◌≢◌, ◌⊎◌, refl, Bool, true, false, none, some, List, [], ◌∷◌, ◌&&◌, ◌==◌, string_key,
}
use goupter.Prelude.Int.{ℤ, pos, ◌≤ℤ◌}
use goupter.Errors.Codes.{code_internal_error, code_message, predefined, get_message_by_code}
use goupter.Errors.Error.{
  GoError, Error, as_error, is_nil, get_message, get_code, http_status, wrap, is, is_code,
  from_error,
}
use goupter.Errors.Response.{Reply, respond_error, abort}
use goupter.Errors.Laws.{
  details_of, trace_text, respond_error-get_code, http_status-code, get_code_wrapped,
}

-- The messages of some predefined errors are those of the table.
abbrev agree : List (ℤ × String) → Bool
agree [] = true
agree ((code, message) ∷ es) = (get_message_by_code code == message) && agree es

predefined_messages : agree predefined ≡ true
unfolding predefined get_message_by_code code_message
predefined_messages = refl

abbrev missing : Error String
missing = record {
  code = pos 10001;
  message = "user is gone";
  details = some "42";
  cause = GoError.other "no rows" GoError.nil;
}

abbrev digits : ℤ → String
digits n = "10001"

respond_error-get_code_example :
    ((is_nil (as_error missing) ≡ true)
      × (respond_error digits (some "t") (as_error missing) ≡ none)
      × (abort digits (as_error missing) ≡ none))
    ⊎ ((is_nil (as_error missing) ≡ false)
        × (respond_error digits (some "t") (as_error missing)
            ≡ some (
                Reply.json (pos 200) (record {
                  code = get_code (as_error missing);
                  message = get_message digits (as_error missing);
                  payload = details_of (as_error missing);
                  trace_id = trace_text (some "t");
                })))
        × (abort digits (as_error missing)
            ≡ some (
                Reply.abort_json (pos 200) (record {
                  code = get_code (as_error missing);
                  message = get_message digits (as_error missing);
                  payload = details_of (as_error missing);
                  trace_id = "";
                }))))
respond_error-get_code_example = respond_error-get_code digits (some "t") (as_error missing)

http_status-code_example :
    ((http_status missing ≡ missing.code) × (pos 400 ≤ℤ missing.code) × (missing.code ≤ℤ pos 599))
    ⊎ (((http_status missing ≡ pos 200) × (missing.code ≡ pos 0))
        ⊎ ((http_status missing ≡ pos 500)
            × (missing.code ≢ pos 0)
            × ((missing.code ≤ℤ pos 399) ⊎ (pos 600 ≤ℤ missing.code))))
http_status-code_example = http_status-code missing

get_code_wrapped_example :
    (get_code (GoError.other "load: user is gone" (as_error missing)) ≡ code_internal_error)
    × (is (GoError.other "load: user is gone" (as_error missing)) (some missing) ≡ false)
    × (is_code (GoError.other "load: user is gone" (as_error missing)) (pos 10001) ≡ false)
    × (from_error digits (GoError.other "load: user is gone" (as_error missing))
        ≡ some (
            wrap
              (GoError.other "load: user is gone" (as_error missing))
              code_internal_error
              "load: user is gone"))
get_code_wrapped_example = get_code_wrapped digits "load: user is gone" missing
