-- ===== src/RateLimit/Middleware.antt =====
-- `RateLimitWithConfig` and the middleware made of it in pkg/server/middleware/ratelimit.go. What
-- the handler does to the context of gin is the list of its calls, in order.
use goupter.Prelude.{
  String, Bool, true, false, not, ◌||◌, ◌≡◌, Option, none, some, List, [], ◌∷◌, ◌==◌, string_key,
  nat_key, arith, if◌then◌else◌,
}
use goupter.Prelude.Int.{ℤ, pos}

-- A call on `*gin.Context`; `abort_json` has the status, and the code and message of the body.
pub data Call : Type 0 where
  header : String → String → Call
  abort_json : ℤ → ℤ → String → Call
  next : Call

-- `Limiter`, with its state `L`, for contexts `C`.
pub record RateLimitConfig (C L : Type 0) : Type 0 where
  pub allow : L → String → L × Bool
  pub key_func : Option (C → String)
  pub message : String
  pub status_code : ℤ
  pub abort_on_fail : Bool

unfoldable pub or_default_key : {C : Type 0} → Option (C → String) → (C → String) → C → String
or_default_key none client_ip = client_ip
or_default_key (some f) client_ip = f

unfoldable pub or_default_status : ℤ → ℤ
or_default_status (pos n) = if n == 0 then pos 429 else pos n
or_default_status z = z

unfoldable pub or_default_message : String → String
or_default_message message = if message == "" then "Too many requests" else message

module _ {C L : Type 0} (client_ip : C → String) where
  unfoldable pub rate_limit_with_config : RateLimitConfig C L → C → L → L × List Call
  unfolding or_default_key or_default_status or_default_message
  rate_limit_with_config cfg c limiter =
      let (limiter', ok) = cfg.allow limiter (or_default_key cfg.key_func client_ip c) in
      if not ok
      then (
        limiter',
        header "X-RateLimit-Exceeded" "true"
            ∷ header "Retry-After" "1"
            ∷ (if cfg.abort_on_fail
                then abort_json (or_default_status cfg.status_code)
                    (or_default_status cfg.status_code) (or_default_message cfg.message)
                  ∷ []
                else next ∷ []),
      )
      else (limiter', next ∷ [])

  -- The configuration that `RateLimit` passes on.
  unfoldable pub rate_limit : (L → String → L × Bool) → RateLimitConfig C L
  rate_limit allow = record {
    allow = allow;
    key_func = some client_ip;
    message = "Too many requests";
    status_code = pos 429;
    abort_on_fail = true;
  }

  unfoldable pub user_rate_limit : (L → String → L × Bool) → (C → String) → RateLimitConfig C L
  user_rate_limit allow get_user_id = record (rate_limit allow) {
    key_func = some (λ c. if get_user_id c == "" then client_ip c else get_user_id c);
  }

-- The rest of the chain runs.
pub runs : List Call → Bool
runs [] = false
runs (next ∷ rest) = true
runs (header k v ∷ rest) = runs rest
runs (abort_json s c m ∷ rest) = runs rest

-- The answer of the handler itself.
pub answered : List Call → Option (ℤ × String)
answered [] = none
answered (next ∷ rest) = answered rest
answered (header k v ∷ rest) = answered rest
answered (abort_json s c m ∷ rest) = some (s, m)

-- Under every configuration of the middleware, also one with fields left out, the limiter is
-- asked once; the rest of the chain runs if the limiter admits the request or the configuration
-- does not abort, and otherwise the handler itself answers, so that it is exactly one of the two.
pub rate_limit_with_config_lem :
    {C L : Type 0} (client_ip : C → String) (cfg : RateLimitConfig C L) (c : C) (limiter : L)
    → let asked = cfg.allow limiter (or_default_key cfg.key_func client_ip c) in
      let outcome = rate_limit_with_config client_ip cfg c limiter in
      (outcome.0 ≡ asked.0)
      × (runs outcome.1 ≡ (asked.1 || not cfg.abort_on_fail))
      × (answered outcome.1 ≡ (
          if asked.1 || not cfg.abort_on_fail
          then none
          else some (or_default_status cfg.status_code, or_default_message cfg.message)))
unfolding rate_limit_with_config runs answered
rate_limit_with_config_lem client_ip cfg c limiter = ground arith
