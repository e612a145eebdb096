-- ===== src/Log/Sampler.antt =====
-- The samplers of pkg/log/sampler.go. `Sample` of a `RateSampler` is one atomic addition; a
-- `WindowSampler` holds its lock throughout, and the reading of the clock is an argument.
use goupter.Prelude.{
  append, ◌%◌, String, Bool, true, false, none, some, List, [], ◌==◌, string_key, nat_key,
  if◌then◌else◌,
}
use goupter.Prelude.Dict.{lookup, insert, delete_if}
use goupter.Prelude.Int.{ℤ, pos, ◌+ℤ◌, ltb_ℤ, leb_ℤ}
use goupter.Prelude.Word64.{add64}

pub data Level : Type 0 where
  debug_level : Level
  info_level : Level
  warn_level : Level
  error_level : Level
  fatal_level : Level

-- `Level.String`, for the five levels.
unfoldable pub level_text : Level → String
level_text Level.debug_level = "debug"
level_text Level.info_level = "info"
level_text Level.warn_level = "warn"
level_text Level.error_level = "error"
level_text Level.fatal_level = "fatal"

pub record RateSampler : Type 0 where
  pub rate : ℤ
  pub counter : ℤ

unfoldable pub new_rate_sampler : ℤ → RateSampler
new_rate_sampler rate = record {
  rate = if leb_ℤ rate (pos 0) then pos 1 else rate;
  counter = pos 0;
}

-- `n % rate == 1` for a positive rate: Go's remainder has the sign of `n`, so it is no 1 for a
-- negative one.
unfoldable pub is_turn : ℤ → ℤ → Bool
is_turn (pos n) (pos rate) = n % rate == 1
is_turn n rate = false

unfoldable pub rate_sample : RateSampler → RateSampler × Bool
unfolding is_turn
rate_sample s = let n = add64 s.counter (pos 1) in (record s { counter = n }, is_turn n s.rate)

pub record WindowCount : Type 0 where
  pub count : ℤ
  pub reset_time : ℤ

pub record WindowSampler : Type 0 where
  pub window : ℤ
  pub max_count : ℤ
  pub counts : List (String × WindowCount)

unfoldable pub new_window_sampler : ℤ → ℤ → WindowSampler
new_window_sampler window max_count = record {
  window = window;
  max_count = if leb_ℤ max_count (pos 0) then pos 1 else max_count;
  counts = [];
}

unfoldable pub sample_key : Level → String → String
unfolding level_text
sample_key level msg = append (level_text level) (append ":" msg)

unfoldable pub window_sample : WindowSampler → Level → String → ℤ → WindowSampler × Bool
unfolding sample_key
window_sample s level msg now =
    let key = sample_key level msg in
    let first : WindowCount = record { count = pos 1; reset_time = now +ℤ s.window } in
    elim (lookup key s.counts) [
      | none ↦ (record s { counts = insert key first s.counts }, true)
      | some wc ↦
          if ltb_ℤ wc.reset_time now
          then (record s { counts = insert key first s.counts }, true)
          else if ltb_ℤ wc.count s.max_count
          then (
            record s {
              counts = insert key (record wc { count = add64 wc.count (pos 1) }) s.counts;
            },
            true,
          )
          else (s, false)
    ]

-- One tick of the loop of `cleanup`.
unfoldable pub window_cleanup : WindowSampler → ℤ → WindowSampler
window_cleanup s now = record s { counts = delete_if (λ key wc. ltb_ℤ wc.reset_time now) s.counts }
