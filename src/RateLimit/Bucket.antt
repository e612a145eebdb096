-- ===== src/RateLimit/Bucket.antt =====
-- `TokenBucket` and `IPRateLimiter` of pkg/server/middleware/ratelimit.go. `AllowN` of a bucket
-- holds `tb.mu` throughout, so it is one step. A request to the limiter by address is modelled with
-- no other goroutine between the read of the table and the call of the bucket.
use goupter.Prelude.{String, Bool, true, false, none, some, List, string_key, if◌then◌else◌}
use goupter.Prelude.Dict.{lookup, insert, delete_if}
use goupter.Prelude.Float.{Float64}
use goupter.Prelude.Int.{ℤ, pos, ◌-ℤ◌}

pub record TokenBucket (F : Type 0) : Type 0 where
  pub rate : F
  pub capacity : ℤ
  pub tokens : F
  pub last_update : ℤ

pub record IpRateLimiter (F : Type 0) : Type 0 where
  pub limiters : List (String × TokenBucket F)
  pub rate : F
  pub capacity : ℤ

module _ (fl : Float64) where
  open fl use {F, add, sub, mul, of_int, seconds, lt, le}

  unfoldable pub new_token_bucket : F → ℤ → ℤ → TokenBucket F
  new_token_bucket rate capacity now = record {
    rate = rate;
    capacity = capacity;
    tokens = of_int capacity;
    last_update = now;
  }

  -- `tb.tokens` after the refill.
  unfoldable pub refilled : TokenBucket F → ℤ → F
  refilled tb now =
      let tokens = add tb.tokens (mul (seconds (now -ℤ tb.last_update)) tb.rate) in
      if lt (of_int tb.capacity) tokens then of_int tb.capacity else tokens

  unfoldable pub allow_n : TokenBucket F → ℤ → ℤ → TokenBucket F × Bool
  allow_n tb n now =
      let tokens = refilled tb now in
      if le (of_int n) tokens
      then (record tb { tokens = sub tokens (of_int n); last_update = now }, true)
      else (record tb { tokens = tokens; last_update = now }, false)

  unfoldable pub allow : TokenBucket F → ℤ → TokenBucket F × Bool
  allow tb now = allow_n tb (pos 1) now

  unfoldable pub get_limiter : IpRateLimiter F → String → ℤ → IpRateLimiter F × TokenBucket F
  get_limiter l ip now = elim (lookup ip l.limiters) [
    | some tb ↦ (l, tb)
    | none ↦
        let tb = new_token_bucket l.rate l.capacity now in
        (record l { limiters = insert ip tb l.limiters }, tb)
  ]

  -- The bucket is shared with the table. `created` is the clock at `NewTokenBucket`.
  unfoldable pub ip_allow_n : IpRateLimiter F → String → ℤ → ℤ → ℤ → IpRateLimiter F × Bool
  ip_allow_n l key n created now =
      let (l', tb) = get_limiter l key created in
      let (tb', ok) = allow_n tb n now in (record l' { limiters = insert key tb' l'.limiters }, ok)

  unfoldable pub ip_allow : IpRateLimiter F → String → ℤ → ℤ → IpRateLimiter F × Bool
  ip_allow l key created now = ip_allow_n l key (pos 1) created now

  -- One tick of the loop of `cleanup`: the full buckets go.
  unfoldable pub ip_cleanup : IpRateLimiter F → IpRateLimiter F
  ip_cleanup l = record l {
    limiters = delete_if (λ ip tb. le (of_int tb.capacity) tb.tokens) l.limiters;
  }
