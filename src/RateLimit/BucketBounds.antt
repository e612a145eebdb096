-- ===== src/RateLimit/BucketBounds.antt =====
-- What `TokenBucket` and `IPRateLimiter` admit and keep.
use goupter.Prelude.{
  ℕ, zero, suc, String, ◌≡◌, refl, ap, ◌∙◌, Bool, true, false, none, some, string_key, arith,
  if◌then◌else◌,
}
use Prim.Native.Nat.{min}
use goupter.Prelude.Dict.{
  lookup, insert, Distinct, lookup-insert, lookup-delete_if, insert-Distinct,
}
use goupter.Prelude.Float.{Float64, IsExact, IsOrdered}
use goupter.Prelude.Int.{ℤ, pos, ◌-ℤ◌, ◌≤ℤ◌, le→ltb_ℤ, le→leb_ℤ, lt→leb_ℤ, int_laws}
use goupter.RateLimit.Bucket.{
  TokenBucket, IpRateLimiter, new_token_bucket, refilled, allow_n, allow, get_limiter, ip_allow_n,
  ip_allow, ip_cleanup,
}

module _ (fl : Float64) (ordered : IsOrdered fl) where
  open fl use {F, add, sub, mul, of_int, seconds, lt, le}
  open ordered use {is_nan}

  refilled-le :
      (tb : TokenBucket F) (now : ℤ)
      → is_nan (add tb.tokens (mul (seconds (now -ℤ tb.last_update)) tb.rate)) ≡ false
      → le (refilled fl tb now) (of_int tb.capacity) ≡ true
  unfolding refilled
  refilled-le tb now h = ground (
    arith,
    ordered.le_refl (of_int tb.capacity) (ordered.is_nan-of_int tb.capacity),
    ordered.le_of_not_lt (of_int tb.capacity)
        (add tb.tokens (mul (seconds (now -ℤ tb.last_update)) tb.rate))
        (ordered.is_nan-of_int tb.capacity) h,
  )

  -- After a request for an amount that is not negative, admitted or not, a bucket holds no more
  -- than its capacity, as long as the refill makes no NaN.
  pub tokens-le-capacity :
      (tb : TokenBucket F) (n now : ℤ)
      → pos 0 ≤ℤ n
      → is_nan (add tb.tokens (mul (seconds (now -ℤ tb.last_update)) tb.rate)) ≡ false
      → is_nan (refilled fl tb now) ≡ false
      → le (allow_n fl tb n now).0.tokens (of_int tb.capacity) ≡ true
  unfolding allow_n
  tokens-le-capacity tb n now h sum r = ground (
    arith,
    refilled-le tb now sum,
    ordered.sub_le (refilled fl tb now) (of_int tb.capacity) n r h,
  )

-- `k` requests of one token each, all at the time `now`: the number that is admitted.
module _ (fl : Float64) where
  open fl use {F}

  pub burst : TokenBucket F → ℕ → ℤ → ℕ
  burst tb zero now = 0
  burst tb (suc k) now =
      let outcome = allow fl tb now in
      let rest = burst outcome.0 k now in if outcome.1 then suc rest else rest

module _ (fl : Float64) (bound : ℤ) (exact : IsExact fl bound) where
  open fl use {F, add, sub, mul, of_int, seconds, lt, le}

  -- A bucket that was updated at `now` and holds `held` whole tokens.
  abbrev Holds : TokenBucket F → ℕ → ℤ → Type 0
  Holds tb held now =
      (tb.tokens ≡ of_int (pos held))
      × (tb.last_update ≡ now)
      × (pos held ≤ℤ tb.capacity)
      × (tb.capacity ≤ℤ bound)
      × (exact.is_finite tb.rate ≡ true)

  sub_self : (a : ℤ) → a -ℤ a ≡ pos 0
  sub_self a = omega int_laws

  refilled_now :
      (tb : TokenBucket F) (held : ℕ) (now : ℤ)
      → Holds tb held now
      → refilled fl tb now ≡ of_int (pos held)
  unfolding refilled
  refilled_now tb held now (e, f, g, b, r) =
      rw (full ∙ exact.no_time tb.rate (pos held) r, not_above)
    where
      full :
          add tb.tokens (mul (seconds (now -ℤ tb.last_update)) tb.rate)
          ≡ add (of_int (pos held)) (mul (seconds (pos 0)) tb.rate)
      full = rw (e, f, sub_self now)

      not_above : lt (of_int tb.capacity) (of_int (pos held)) ≡ false
      not_above =
          exact.lt_int tb.capacity (pos held) (omega arith) b (omega arith) (omega arith)
          ∙ le→ltb_ℤ tb.capacity (pos held) g

  -- One request for one token, with no time gone by.
  allow_holding :
      (tb : TokenBucket F) (held : ℕ) (now : ℤ)
      → Holds tb (suc held) now
      → ((allow fl tb now).1 ≡ true) × Holds (allow fl tb now).0 held now
  unfolding allow allow_n
  allow_holding tb held now (e, f, g, b, r) =
      ground (arith, refilled_now tb (suc held) now (e, f, g, b, r), enough, left)
    where
      enough : le (of_int (pos 1)) (of_int (pos (suc held))) ≡ true
      enough =
          exact.le_int (pos 1) (pos (suc held)) (omega arith) (omega arith) (omega arith)
            (omega arith)
          ∙ le→leb_ℤ (pos 1) (pos (suc held)) (omega arith)

      left : sub (of_int (pos (suc held))) (of_int (pos 1)) ≡ of_int (pos held)
      left =
          exact.sub_int (pos (suc held)) (pos 1) (omega arith) (omega arith) (omega arith)
          ∙ ap of_int (omega int_laws)

  allow_empty :
      (tb : TokenBucket F) (now : ℤ)
      → Holds tb 0 now
      → pos 1 ≤ℤ bound
      → ((allow fl tb now).1 ≡ false) × Holds (allow fl tb now).0 0 now
  unfolding allow allow_n
  allow_empty tb now (e, f, g, b, r) one =
      ground (arith, refilled_now tb 0 now (e, f, g, b, r), short)
    where
      short : le (of_int (pos 1)) (of_int (pos 0)) ≡ false
      short =
          exact.le_int (pos 1) (pos 0) (omega arith) one (omega arith) (omega arith)
          ∙ lt→leb_ℤ (pos 1) (pos 0) (omega arith)

  burst_from :
      (k held : ℕ) (tb : TokenBucket F) (now : ℤ)
      → Holds tb held now
      → pos 1 ≤ℤ bound
      → burst fl tb k now ≡ min k held
  unfolding burst
  burst_from zero held tb now h b = omega arith
  burst_from (suc k) zero tb now h b =
      let (said, h') = allow_empty tb now h b in
      rw said (burst_from k zero (allow fl tb now).0 now h' b ∙ omega arith)
  burst_from (suc k) (suc held) tb now h b =
      let (said, h') = allow_holding tb held now h in
      rw said (ap suc (burst_from k held (allow fl tb now).0 now h' b) ∙ omega arith)

  -- Of `k` requests for one token that reach a new bucket at the instant of its creation, the
  -- smaller of `k` and the capacity is admitted, for a finite rate and a capacity in the range where
  -- float64 is exact.
  pub burst-min :
      (rate : F) (capacity k : ℕ) (now : ℤ)
      → pos capacity ≤ℤ bound
      → pos 1 ≤ℤ bound
      → exact.is_finite rate ≡ true
      → burst fl (new_token_bucket fl rate (pos capacity) now) k now ≡ min k capacity
  unfolding new_token_bucket
  burst-min rate capacity k now b b' r =
      burst_from k capacity _ now (refl, refl, omega arith, b, r) b'

  one_taken :
      (rate : F) (most : ℕ) (now : ℤ)
      → pos (suc most) ≤ℤ bound
      → exact.is_finite rate ≡ true
      → allow fl (new_token_bucket fl rate (pos (suc most)) now) now ≡ (
        record {
          rate = rate;
          capacity = pos (suc most);
          tokens = of_int (pos most);
          last_update = now;
        },
        true,
      )
  unfolding allow allow_n new_token_bucket
  one_taken rate most now b r =
      ground (arith, refilled_now tb (suc most) now (refl, refl, omega arith, b, r), enough, left)
    where
      tb : TokenBucket F
      tb = record {
        rate = rate;
        capacity = pos (suc most);
        tokens = of_int (pos (suc most));
        last_update = now;
      }

      enough : le (of_int (pos 1)) (of_int (pos (suc most))) ≡ true
      enough =
          exact.le_int (pos 1) (pos (suc most)) (omega arith) (omega arith) (omega arith) b
          ∙ le→leb_ℤ (pos 1) (pos (suc most)) (omega arith)

      left : sub (of_int (pos (suc most))) (of_int (pos 1)) ≡ of_int (pos most)
      left =
          exact.sub_int (pos (suc most)) (pos 1) (omega arith) (omega arith) b
          ∙ ap of_int (omega int_laws)

  abbrev used : F → ℕ → ℤ → TokenBucket F
  used rate most now = record {
    rate = rate;
    capacity = pos (suc most);
    tokens = of_int (pos most);
    last_update = now;
  }

  get_limiter_fresh :
      (l : IpRateLimiter F) (ip : String) (now : ℤ)
      → lookup ip l.limiters ≡ none
      → get_limiter fl l ip now ≡ (
        record l { limiters = insert ip (new_token_bucket fl l.rate l.capacity now) l.limiters },
        new_token_bucket fl l.rate l.capacity now,
      )
  unfolding get_limiter
  get_limiter_fresh l ip now fresh = rw (fresh, get_limiter) refl

  ip_allow_fresh :
      (l : IpRateLimiter F) (ip : String) (most : ℕ) (now : ℤ)
      → lookup ip l.limiters ≡ none
      → l.capacity ≡ pos (suc most)
      → pos (suc most) ≤ℤ bound
      → exact.is_finite l.rate ≡ true
      → (ip_allow fl l ip now now).0.limiters
        ≡ insert ip
            (used l.rate most now)
            (insert ip (new_token_bucket fl l.rate (pos (suc most)) now) l.limiters)
  unfolding ip_allow ip_allow_n allow
  ip_allow_fresh l ip most now fresh c b r = rw (get_limiter_fresh l ip now fresh) (
      ap
        (λ (z : ℤ).
          insert ip (allow fl (new_token_bucket fl l.rate z now) now).0
            (insert ip (new_token_bucket fl l.rate z now) l.limiters))
        c
      ∙ ap
          (λ (tb : TokenBucket F).
            insert ip tb (insert ip (new_token_bucket fl l.rate (pos (suc most)) now) l.limiters))
          (ap (λ (o : TokenBucket F × Bool). o.0) (one_taken l.rate most now b r)))

  below_capacity :
      (most : ℕ)
      → pos (suc most) ≤ℤ bound
      → le (of_int (pos (suc most))) (of_int (pos most)) ≡ false
  below_capacity most b =
      exact.le_int (pos (suc most)) (pos most) (omega arith) b (omega arith) (omega arith)
      ∙ lt→leb_ℤ (pos (suc most)) (pos most) (omega arith)

  -- The bucket of a new address that one request has used is still in the table after a tick of
  -- the cleaner, with one token fewer than its capacity: the cleaner tests for a full bucket and
  -- reads no clock, so this holds however late it runs. The rate is finite; the capacity is at least
  -- 1 and in the range where float64 is exact.
  pub lookup-ip_cleanup_used :
      (l : IpRateLimiter F) (ip : String) (most : ℕ) (now : ℤ)
      → Distinct l.limiters
      → lookup ip l.limiters ≡ none
      → l.capacity ≡ pos (suc most)
      → pos (suc most) ≤ℤ bound
      → exact.is_finite l.rate ≡ true
      → lookup ip (ip_cleanup fl (ip_allow fl l ip now now).0).limiters
        ≡ some (record {
          rate = l.rate;
          capacity = pos (suc most);
          tokens = of_int (pos most);
          last_update = now;
        })
  unfolding ip_cleanup
  lookup-ip_cleanup_used l ip most now d fresh c b r =
      rw (ip_allow_fresh l ip most now fresh c b r) (
        ground (
          arith,
          lookup-delete_if (λ ip tb. le (of_int tb.capacity) tb.tokens) ip
              (insert ip (used l.rate most now)
                (insert ip (new_token_bucket fl l.rate (pos (suc most)) now) l.limiters))
              (insert-Distinct ip (used l.rate most now) _ (insert-Distinct ip _ l.limiters d)),
          lookup-insert ip ip (used l.rate most now)
              (insert ip (new_token_bucket fl l.rate (pos (suc most)) now) l.limiters),
          string_key.same_iff ip ip,
          below_capacity most b,
        ))
