-- ===== src/Prelude/Word64.antt =====
-- Go's `int64` (and `int`, and `time.Duration`) arithmetic: integers that wrap at 64 bits.
use Prim.Native.Nat.{ℕ, ◌+◌, ◌-◌, ◌%◌, ◌^◌}
use mathlib.Core.Path.{◌≡◌, refl}
use native.Mathlib.Omega.{arith}
use goupter.Prelude.Tests.{ltb, if◌then◌else◌}
use goupter.Prelude.Int.{ℤ, pos, negsuc, pos_part, neg_part, ◌+ℤ◌, ◌-ℤ◌, ◌≤ℤ◌}

-- The 64-bit pattern of an integer, and the integer of a pattern.
abbrev bits64 : ℤ → ℕ
bits64 z = (pos_part z + (2 ^ 64 - neg_part z % 2 ^ 64)) % 2 ^ 64

abbrev signed64 : ℕ → ℤ
signed64 w = if ltb w (2 ^ 63) then pos w else negsuc (2 ^ 64 - w - 1)

unfoldable pub wrap64 : ℤ → ℤ
wrap64 z = signed64 (bits64 z)

unfoldable pub add64 : ℤ → ℤ → ℤ
unfolding wrap64 ◌+ℤ◌
add64 a b = wrap64 (a +ℤ b)

unfoldable pub neg64 : ℤ → ℤ
unfolding wrap64 ◌-ℤ◌
neg64 a = wrap64 (pos 0 -ℤ a)

-- The value is one of `int64`'s.
pub record Fits64 (z : ℤ) : Type 0 where
  pub above : negsuc (2 ^ 63 - 1) ≤ℤ z
  pub below : z ≤ℤ pos (2 ^ 63 - 1)

pub wrap64-Fits64 : (z : ℤ) → Fits64 (wrap64 z)
unfolding wrap64
wrap64-Fits64 z = ground arith

pub wrap64_of_Fits64 : (z : ℤ) → Fits64 z → wrap64 z ≡ z
unfolding wrap64
wrap64_of_Fits64 z h = ground arith

pub add64_of_Fits64 : (a b : ℤ) → Fits64 (a +ℤ b) → add64 a b ≡ a +ℤ b
unfolding add64
add64_of_Fits64 a b h = wrap64_of_Fits64 (a +ℤ b) h

wraps : add64 (pos (2 ^ 63 - 1)) (pos 1) ≡ negsuc (2 ^ 63 - 1)
unfolding add64
wraps = refl
