-- ===== src/Examples/RateLimit.antt =====
-- Examples about pkg/server/middleware/ratelimit.go.
use goupter.Prelude.{
  ℕ, zero, suc, ◌*◌, String, ◌≡◌, refl, true, false, none, some, List, [], ◌∷◌, string_key, arith,
}
use Prim.Native.Nat.{min}
use goupter.Prelude.Dict.{lookup}
use goupter.Prelude.Float.{Float64, IsExact, IsOrdered}
use goupter.Prelude.Int.{ℤ, pos, ◌+ℤ◌, ◌-ℤ◌, ◌≤ℤ◌, ltb_ℤ, leb_ℤ, le→leb_ℤ, leb_ℤ→le, int_laws}
use goupter.RateLimit.Window.{new_limiter, allow_n}
use goupter.RateLimit.WindowBounds.{
  Request, admitted, admitted-le-limit, allow_n_twice_limit, allow_n_after_oversize,
}
use goupter.RateLimit.Bucket.{
  IpRateLimiter, new_token_bucket, ip_allow, ip_cleanup, allow_n as take_n,
}
use goupter.RateLimit.BucketBounds.{burst, burst-min, tokens-le-capacity, lookup-ip_cleanup_used}
use goupter.RateLimit.Middleware.{
  RateLimitConfig, rate_limit_with_config, rate_limit_with_config_lem, or_default_status,
  or_default_message, runs, answered,
}

abbrev times : ℤ → ℤ → ℤ
times (pos zero) b = pos 0
times (pos (suc a)) (pos b) = pos (suc a * b)
times a b = pos 0

-- Whole numbers, for the examples; a duration is its seconds.
abbrev pub whole : Float64
whole = record {
  F = ℤ;
  add = ◌+ℤ◌;
  sub = ◌-ℤ◌;
  mul = times;
  of_int = λ n. n;
  seconds = λ d. d;
  lt = ltb_ℤ;
  le = leb_ℤ;
}

no_more : (a : ℤ) → a +ℤ pos 0 ≡ a
no_more a = omega int_laws

whole-IsExact : IsExact whole (pos 100)
whole-IsExact = record {
  sub_int = λ a b h i j. refl;
  lt_int = λ a b h i j k. refl;
  le_int = λ a b h i j k. refl;
  is_finite = λ rate. true;
  no_time = λ rate a h. no_more a;
}

not_lt : (a b : ℤ) → ltb_ℤ a b ≡ false → leb_ℤ b a ≡ true
not_lt a b h = ground arith

leb_self : (a : ℤ) → leb_ℤ a a ≡ true
leb_self a = le→leb_ℤ a a (omega arith)

sub_leb : (a c : ℤ) (n : ℤ) → pos 0 ≤ℤ n → leb_ℤ a c ≡ true → leb_ℤ (a -ℤ n) c ≡ true
sub_leb a c n h k = let q = leb_ℤ→le a c k in le→leb_ℤ (a -ℤ n) c (omega int_laws)

whole-IsOrdered : IsOrdered whole
whole-IsOrdered = record {
  is_nan = λ a. false;
  is_nan-of_int = λ n. refl;
  le_of_not_lt = λ a b h k. not_lt a b;
  le_refl = λ a h. leb_self a;
  sub_le = λ a c n h i j k. sub_leb a c n i k;
}

burst-min_example :
    burst whole (new_token_bucket whole (pos 2) (pos 3) (pos 10)) 5 (pos 10) ≡ min 5 3
unfolding whole-IsExact
burst-min_example =
    burst-min whole (pos 100) whole-IsExact (pos 2) 3 5 (pos 10) (omega arith) (omega arith) refl

tokens-le-capacity_example :
    leb_ℤ
      (take_n whole (new_token_bucket whole (pos 2) (pos 3) (pos 10)) (pos 2) (pos 60)).0.tokens
      (pos 3)
    ≡ true
unfolding whole-IsOrdered new_token_bucket take_n
tokens-le-capacity_example =
    tokens-le-capacity whole whole-IsOrdered (new_token_bucket whole (pos 2) (pos 3) (pos 10))
      (pos 2) (pos 60) (omega arith) refl refl

abbrev by_address : IpRateLimiter ℤ
by_address = record { limiters = []; rate = pos 2; capacity = pos 3 }

lookup-ip_cleanup_used_example :
    lookup {K = String} "10.0.0.1"
      (ip_cleanup whole (ip_allow whole by_address "10.0.0.1" (pos 5) (pos 5)).0).limiters
    ≡ some (record { rate = pos 2; capacity = pos 3; tokens = pos 2; last_update = pos 5 })
unfolding lookup whole-IsExact
lookup-ip_cleanup_used_example =
    lookup-ip_cleanup_used whole (pos 100) whole-IsExact by_address "10.0.0.1" 2 (pos 5) tt refl
      refl (omega arith) refl

abbrev two_requests : List Request
two_requests =
    record { key = "a"; n = pos 2; now = pos 11 }
    ∷ record { key = "a"; n = pos 2; now = pos 12 }
    ∷ []

admitted-le-limit_example :
    admitted "a"
      (new_limiter (pos 3) (pos 10))
      (record { key = "a"; n = pos 1; now = pos 10 } ∷ two_requests)
    ≤ℤ pos 3
unfolding new_limiter lookup ◌-ℤ◌
admitted-le-limit_example =
    admitted-le-limit "a" (pos 3) (pos 10) (omega arith, omega arith) (new_limiter (pos 3) (pos 10))
      (record { key = "a"; n = pos 1; now = pos 10 }) two_requests refl refl refl refl
      (omega arith, omega arith)
      ((omega arith, (omega arith, omega arith)), ((omega arith, (omega arith, omega arith)), tt))

allow_n_twice_limit_example :
    let opened = (allow_n (new_limiter (pos 5) (pos 60)) "a" (pos 0) (pos 100)).0 in
    let burst = allow_n opened "a" (pos 5) (pos 100 +ℤ pos 60 -ℤ pos 1) in
    (burst.1 ≡ true) × ((allow_n burst.0 "a" (pos 5) (pos 100 +ℤ pos 60)).1 ≡ true)
allow_n_twice_limit_example =
    allow_n_twice_limit (pos 5) (pos 60) (pos 100) "a" (omega arith, omega arith) (omega arith)

allow_n_after_oversize_example :
    ((allow_n (new_limiter (pos 5) (pos 60)) "a" (pos 6) (pos 100)).1 ≡ false)
    × ((allow_n
          (allow_n (new_limiter (pos 5) (pos 60)) "a" (pos 6) (pos 100)).0
          "a"
          (pos 1)
          (pos 110)).1
        ≡ false)
unfolding lookup new_limiter ◌-ℤ◌
allow_n_after_oversize_example =
    allow_n_after_oversize (new_limiter (pos 5) (pos 60)) "a" (pos 6) (pos 1) (pos 100) (pos 110)
      refl (omega arith) (omega arith, omega arith) (omega arith, omega arith) (omega arith)

-- Two requests are left to admit; the context is the client's address.
abbrev counting : RateLimitConfig String ℕ
counting = record {
  allow = λ left key. elim left [ zero ↦ (zero, false) | suc rest ↦ (rest, true) ];
  key_func = none;
  message = "";
  status_code = pos 0;
  abort_on_fail = true;
}

rate_limit_with_config_lem_example :
    let asked = counting.allow 0 "10.0.0.1" in
    let outcome = rate_limit_with_config (λ c. c) counting "10.0.0.1" 0 in
    (outcome.0 ≡ 0)
    × (runs outcome.1 ≡ false)
    × (answered outcome.1 ≡ some (pos 429, "Too many requests"))
unfolding or_default_status or_default_message
rate_limit_with_config_lem_example = rate_limit_with_config_lem (λ c. c) counting "10.0.0.1" 0
