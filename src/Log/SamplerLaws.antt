-- ===== src/Log/SamplerLaws.antt =====
-- How many messages the samplers of pkg/log/sampler.go let through.
use native.Mathlib.Nat.{mod-lt, mod-eq_of_lt, mod_self, mod-one, suc-mod}
use goupter.Prelude.{
  ℕ, zero, suc, ◌+◌, ◌%◌, ◌^◌, ◌<◌, ◌≤◌, ◌≡◌, refl, ap, ◌∙◌, ◌⊎◌, inl, inr, false, ◌==◌, nat_key,
  if◌then◌else◌, arith,
}
use goupter.Prelude.Int.{ℤ, pos, ◌+ℤ◌, ◌≤ℤ◌, leb_ℤ, int_laws}
use goupter.Prelude.Word64.{Fits64, add64_of_Fits64}
use goupter.Log.Sampler.{RateSampler, new_rate_sampler, rate_sample, is_turn}

-- The number of samples among `k` calls.
pub samples : RateSampler → ℕ → ℕ
samples s zero = 0
samples s (suc k) =
    let outcome = rate_sample s in
    let rest = samples outcome.0 k in if outcome.1 then suc rest else rest

-- The sampler for one in `rate`, after `c` calls.
abbrev pub at : ℕ → ℕ → RateSampler
at rate c = record { rate = pos rate; counter = pos c }

rate_sample_lem :
    (rate c : ℕ) → suc c < 2 ^ 63 → rate_sample (at rate c) ≡ (at rate (suc c), (suc c % rate) == 1)
unfolding rate_sample is_turn
rate_sample_lem rate c small = rw (add64_of_Fits64 (pos c) (pos 1) fits, one c) refl
  where
    one : (c : ℕ) → pos c +ℤ pos 1 ≡ pos (suc c)
    one c = omega int_laws

    fits : Fits64 (pos c +ℤ pos 1)
    fits = record { above = omega int_laws; below = omega int_laws }

samples_lem :
    (rate c k : ℕ)
    → suc c < 2 ^ 63
    → samples (at rate c) (suc k) ≡ (
        if (suc c % rate) == 1
        then suc (samples (at rate (suc c)) k)
        else samples (at rate (suc c)) k)
unfolding samples
samples_lem rate c k small = rw (rate_sample_lem rate c small) refl

below : (m n : ℕ) → n ≤ m → (n < m) ⊎ (n ≡ m)
below m n h = ground arith

positive : (n : ℕ) → (n ≡ 0) ⊎ (1 ≤ n)
positive n = ground arith

-- The phase of the next call.
next_phase : (rate c i : ℕ) → c % rate ≡ i → suc i < rate → suc c % rate ≡ suc i
next_phase rate c i h lt = suc-mod c rate ∙ rw h (mod-eq_of_lt lt)

last_phase : (rate c i : ℕ) → c % rate ≡ i → suc i ≡ rate → suc c % rate ≡ 0
last_phase rate c i h e = suc-mod c rate ∙ rw (h, e) (mod_self rate)

samples_zero : (s : RateSampler) → samples s 0 ≡ 0
unfolding samples
samples_zero s = refl

samples_skip :
    (rate c k r : ℕ)
    → suc c < 2 ^ 63
    → suc c % rate ≡ r
    → (r == 1) ≡ false
    → samples (at rate c) (suc k) ≡ samples (at rate (suc c)) k
samples_skip rate c k r small h e = samples_lem rate c k small ∙ rw (h, e) refl

samples_hit :
    (rate c k : ℕ)
    → suc c < 2 ^ 63
    → suc c % rate ≡ 1
    → samples (at rate c) (suc k) ≡ suc (samples (at rate (suc c)) k)
samples_hit rate c k small h = samples_lem rate c k small ∙ rw h refl

not_one : (n : ℕ) → 2 ≤ n → (n == 1) ≡ false
not_one n h = ground arith

-- Between the turns nothing is sampled.
samples_none :
    (k rate c i : ℕ)
    → 2 ≤ rate
    → c % rate ≡ i
    → 1 ≤ i
    → i + k ≤ rate
    → c + k < 2 ^ 63
    → samples (at rate c) k ≡ 0
samples_none zero rate c i two h p q small = samples_zero (at rate c)
samples_none (suc zero) rate c i two h p q small = elim (below rate (suc i) (omega arith)) [
  | inl e ↦
      samples_skip rate c 0 (suc i) (omega arith) (next_phase rate c i h e)
        (not_one (suc i) (omega arith))
      ∙ samples_zero (at rate (suc c))
  | inr e ↦
      samples_skip rate c 0 0 (omega arith) (last_phase rate c i h e) refl
      ∙ samples_zero (at rate (suc c))
]
samples_none (suc (suc k)) rate c i two h p q small =
    let next = next_phase rate c i h (omega arith) in
    samples_skip rate c (suc k) (suc i) (omega arith) next (not_one (suc i) (omega arith))
    ∙ samples_none (suc k) rate (suc c) (suc i) two next (omega arith) (omega arith) (omega arith)

samples_turn :
    (k rate c : ℕ)
    → 2 ≤ rate
    → c % rate ≡ 0
    → 1 ≤ k
    → k ≤ rate
    → c + k < 2 ^ 63
    → samples (at rate c) k ≡ 1
samples_turn zero rate c two h p q small = absurd (omega arith)
samples_turn (suc k) rate c two h p q small =
    let next = next_phase rate c 0 h (omega arith) in
    samples_hit rate c k (omega arith) next
    ∙ ap suc (samples_none k rate (suc c) 1 two next (omega arith) (omega arith) (omega arith))

samples_round :
    (k rate c i : ℕ)
    → 2 ≤ rate
    → c % rate ≡ i
    → 1 ≤ i
    → i < rate
    → rate < i + k
    → k ≤ rate
    → c + k < 2 ^ 63
    → samples (at rate c) k ≡ 1
samples_round zero rate c i two h p lt q r small = absurd (omega arith)
samples_round (suc k) rate c i two h p lt q r small = elim (below rate (suc i) (omega arith)) [
  | inl e ↦
      samples_skip rate c k (suc i) (omega arith) (next_phase rate c i h e)
        (not_one (suc i) (omega arith))
      ∙ samples_round k rate (suc c) (suc i) two (next_phase rate c i h e) (omega arith) e
          (omega arith) (omega arith) (omega arith)
  | inr e ↦
      samples_skip rate c k 0 (omega arith) (last_phase rate c i h e) refl
      ∙ samples_turn k rate (suc c) two (last_phase rate c i h e) (omega arith) (omega arith)
          (omega arith)
]

-- From any point on, a sampler for one in `rate` messages, `rate` being 2 or more, lets exactly one
-- of the next `rate` messages through, as long as its counter does not reach 2^63.
pub samples_one_in_rate : (rate c : ℕ) → 2 ≤ rate → c + rate < 2 ^ 63 → samples (at rate c) rate ≡ 1
samples_one_in_rate rate c two small = elim (positive (c % rate)) [
  | inl e ↦ samples_turn rate rate c two e (omega arith) (omega arith) small
  | inr p ↦
      samples_round rate rate c (c % rate) two refl p (mod-lt c (omega arith)) (omega arith)
        (omega arith) small
]

samples_rate_one : (k c : ℕ) → c + k < 2 ^ 63 → samples (at 1 c) k ≡ 0
samples_rate_one zero c small = samples_zero (at 1 c)
samples_rate_one (suc k) c small =
    samples_skip 1 c k 0 (omega arith) (mod-one (suc c)) refl
    ∙ samples_rate_one k (suc c) (omega arith)

-- A sampler for every message, one of rate 1 or of a rate that is not positive, which counts as
-- 1, lets no message through at all, as long as its counter does not reach 2^63.
pub samples_never :
    (rate : ℤ) (k : ℕ) → rate ≤ℤ pos 1 → k < 2 ^ 63 → samples (new_rate_sampler rate) k ≡ 0
unfolding new_rate_sampler
samples_never rate k h small = rw (one rate h) (samples_rate_one k 0 (omega arith))
  where
    one : (rate : ℤ) → rate ≤ℤ pos 1 → (if leb_ℤ rate (pos 0) then pos 1 else rate) ≡ pos 1
    one rate h = ground arith
