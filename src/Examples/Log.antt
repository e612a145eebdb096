-- ===== src/Examples/Log.antt =====
-- Examples about pkg/log/sampler.go.
use goupter.Prelude.{◌≡◌, refl, arith, true, false}
use goupter.Prelude.Int.{pos, negsuc, ◌+ℤ◌}
use goupter.Prelude.Dict.{lookup, insert}
use goupter.Prelude.Word64.{add64}
use goupter.Log.Sampler.{
  new_rate_sampler, new_window_sampler, window_sample, debug_level, info_level,
}
use goupter.Log.SamplerLaws.{samples, at, samples_one_in_rate, samples_never}

samples_one_in_rate_example : samples (at 3 7) 3 ≡ 1
samples_one_in_rate_example = samples_one_in_rate 3 7 (omega arith) (omega arith)

samples_never_example : samples (new_rate_sampler (negsuc 4)) 5 ≡ 0
samples_never_example = samples_never (negsuc 4) 5 (omega arith) (omega arith)

-- Two of three messages in a window, and one at another level.
window_run :
    let s = (window_sample (new_window_sampler (pos 10) (pos 2)) info_level "a" (pos 1)).0 in
    let s' = (window_sample s info_level "a" (pos 2)).0 in
    ((window_sample s info_level "a" (pos 2)).1 ≡ true)
    × ((window_sample s' info_level "a" (pos 11)).1 ≡ false)
    × ((window_sample s' debug_level "a" (pos 11)).1 ≡ true)
    × ((window_sample s' info_level "a" (pos 12)).1 ≡ true)
unfolding window_sample new_window_sampler ◌+ℤ◌ lookup insert add64
window_run = (refl, refl, refl, refl)
