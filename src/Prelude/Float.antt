-- ===== src/Prelude/Float.antt =====
-- Go's `float64` as a parameter: the operations that the code uses, and what it relies on of them.
use goupter.Prelude.Int.{ℤ, pos, ◌-ℤ◌, ◌≤ℤ◌, ltb_ℤ, leb_ℤ}
use mathlib.Core.Path.{◌≡◌}
use mathlib.Core.Bool.{Bool, true, false}

pub record Float64 : Type 1 where
  pub F : Type 0
  pub add : F → F → F
  pub sub : F → F → F
  pub mul : F → F → F
  -- `float64(n)`
  pub of_int : ℤ → F
  -- `d.Seconds()`
  pub seconds : ℤ → F
  -- `a < b` and `a <= b`; both are false at a NaN.
  pub lt : F → F → Bool
  pub le : F → F → Bool

-- IEEE arithmetic on the integers up to a bound (2^53), which are exact, and on time differences.
pub record IsExact (fl : Float64) (bound : ℤ) : Type 0 where
  pub sub_int :
      (a b : ℤ)
      → pos 0 ≤ℤ b
      → b ≤ℤ a
      → a ≤ℤ bound
      → fl.sub (fl.of_int a) (fl.of_int b) ≡ fl.of_int (a -ℤ b)
  pub lt_int :
      (a b : ℤ)
      → pos 0 ≤ℤ a
      → a ≤ℤ bound
      → pos 0 ≤ℤ b
      → b ≤ℤ bound
      → fl.lt (fl.of_int a) (fl.of_int b) ≡ ltb_ℤ a b
  pub le_int :
      (a b : ℤ)
      → pos 0 ≤ℤ a
      → a ≤ℤ bound
      → pos 0 ≤ℤ b
      → b ≤ℤ bound
      → fl.le (fl.of_int a) (fl.of_int b) ≡ leb_ℤ a b
  -- Neither an infinity nor a NaN.
  pub is_finite : fl.F → Bool
  -- Nothing is refilled in no time at a finite rate.
  pub no_time :
      (rate : fl.F) (a : ℤ)
      → is_finite rate ≡ true
      → fl.add (fl.of_int a) (fl.mul (fl.seconds (pos 0)) rate) ≡ fl.of_int a

-- The order of the values that are not NaN.
pub record IsOrdered (fl : Float64) : Type 0 where
  pub is_nan : fl.F → Bool
  pub is_nan-of_int : (n : ℤ) → is_nan (fl.of_int n) ≡ false
  pub le_of_not_lt :
      (a b : fl.F) → is_nan a ≡ false → is_nan b ≡ false → fl.lt a b ≡ false → fl.le b a ≡ true
  pub le_refl : (a : fl.F) → is_nan a ≡ false → fl.le a a ≡ true
  -- Taking away a value that is neither negative nor more than there is leaves no more than there was.
  pub sub_le :
      (a c : fl.F) (n : ℤ)
      → is_nan a ≡ false
      → pos 0 ≤ℤ n
      → fl.le (fl.of_int n) a ≡ true
      → fl.le a c ≡ true
      → fl.le (fl.sub a (fl.of_int n)) c ≡ true
