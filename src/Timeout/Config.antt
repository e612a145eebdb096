-- ===== src/Timeout/Config.antt =====
-- `TimeoutWithConfig`, `TimeoutWithCustomResponse` and `RequestTimeout` of
-- pkg/server/middleware/timeout.go: what is replied, and which timeout a request gets.
use goupter.Prelude.{
  ℕ, String, ◌≡◌, ◌&&◌, Option, none, some, List, [], ◌∷◌, ◌==◌, string_key, if◌then◌else◌, arith,
}
use goupter.Prelude.Int.{ℤ, pos, ◌≤ℤ◌, ◌<ℤ◌, ltb_ℤ, int_key}
use goupter.Timeout.Writer.{OutCall, out_header, out_status, out_write}

-- Durations are nanoseconds.
pub record TimeoutConfig : Type 0 where
  pub timeout : ℤ
  pub message : String
  pub status_code : ℤ

unfoldable pub default_timeout_config : TimeoutConfig
default_timeout_config = record {
  timeout = pos 30000000000;
  message = "Request timeout";
  status_code = pos 504;
}

-- The fields that are left out.
unfoldable pub fill_config : TimeoutConfig → TimeoutConfig
fill_config cfg = record {
  timeout = if cfg.timeout == pos 0 then pos 30000000000 else cfg.timeout;
  message = if cfg.message == "" then "Request timeout" else cfg.message;
  status_code = if cfg.status_code == pos 0 then pos 504 else cfg.status_code;
}

module _ (encode : ℤ → String → List ℕ) where
  -- `encode` is the JSON of a code and a message, which the encoder writes at once.
  unfoldable pub write_json_response : ℤ → String → List OutCall
  write_json_response status_code message =
      out_header "Content-Type" ("application/json; charset=utf-8" ∷ [])
      ∷ out_status status_code
      ∷ out_write (encode status_code message)
      ∷ []

  -- The timeout and the `onTimeout` of `TimeoutWithConfig`.
  unfoldable pub timeout_with_config : TimeoutConfig → ℤ × List OutCall
  unfolding fill_config write_json_response
  timeout_with_config cfg =
      let cfg' = fill_config cfg in
      (cfg'.timeout, write_json_response cfg'.status_code cfg'.message)

  -- The `onTimeout` of `TimeoutWithCustomResponse`; the handler's calls, or none for a nil handler.
  unfoldable pub custom_reply : Option (List OutCall) → List OutCall
  unfolding write_json_response
  custom_reply none = write_json_response (pos 504) "Request timeout"
  custom_reply (some calls) = calls

-- `parse_duration` is `time.ParseDuration`, none for an error.
unfoldable pub requested : (String → Option ℤ) → ℤ → String → ℤ
requested parse_duration default header =
    if header == "" then default else (elim (parse_duration header) [ none ↦ default | some d ↦ d ])

unfoldable pub request_timeout : (String → Option ℤ) → ℤ → ℤ → String → ℤ
unfolding requested
request_timeout parse_duration default most header =
    let timeout = requested parse_duration default header in
    if ltb_ℤ (pos 0) most && ltb_ℤ most timeout then most else timeout

-- Where a maximum is set, no request gets more time than it, whatever its header says; without a
-- maximum, or below it, a header that parses decides, and otherwise the default does.
pub request_timeout-requested :
    (parse_duration : String → Option ℤ) (default most : ℤ) (header : String)
    → (pos 0 <ℤ most → request_timeout parse_duration default most header ≤ℤ most)
      × (requested parse_duration default header ≤ℤ most
          → request_timeout parse_duration default most header
            ≡ requested parse_duration default header)
      × (most ≤ℤ pos 0
          → request_timeout parse_duration default most header
            ≡ requested parse_duration default header)
unfolding request_timeout
request_timeout-requested parse_duration default most header = ground arith
