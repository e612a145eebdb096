-- ===== src/Config/RuleLaws.antt =====
-- How the rules of pkg/config/validator.go relate to each other.
use goupter.Prelude.{String, ◌≡◌, Bool, true, false, string_key, arith, is_none, if◌then◌else◌}
use goupter.Prelude.Float.{Float64}
use goupter.Prelude.Int.{ℤ, pos}
use goupter.Config.Values.{AnyValue, Std}
use goupter.Config.Rules.{min_rule, max_rule, range_rule, port_rule}

-- The kinds that `Range` looks at.
unfoldable pub is_integer : {F : Type 0} → AnyValue F → Bool
is_integer (AnyValue.int n) = true
is_integer (AnyValue.int64 n) = true
is_integer (AnyValue.other_int n) = true
is_integer _ = false

-- The kinds that `Port` looks at.
unfoldable pub is_port_type : {F : Type 0} → AnyValue F → Bool
is_port_type (AnyValue.int n) = true
is_port_type (AnyValue.int64 n) = true
is_port_type _ = false

module _ (fl : Float64) (std : Std) where
  open fl use {F}

  -- `Range(low, high)` accepts an integer of any width exactly when `Min(low)` and `Max(high)` both
  -- accept it; unlike them it accepts every text and every slice, since it does not look at lengths.
  pub range_rule_min_max :
      (low high : ℤ) (value : AnyValue F) (name : String)
      → is_none (range_rule fl std low high value name) ≡ (
          if is_integer value
          then (if is_none (min_rule fl std low value name)
              then is_none (max_rule fl std high value name)
              else false)
          else true)
  unfolding range_rule min_rule max_rule is_integer
  range_rule_min_max low high value name = ground arith

  -- `Port` accepts what `Range(0, 65535)` accepts, and besides these every integer whose type is
  -- neither `int` nor `int64`, in range or not.
  pub port_rule_range :
      (value : AnyValue F) (name : String)
      → is_none (port_rule fl std value name) ≡ (
          if is_port_type value
          then is_none (range_rule fl std (pos 0) (pos 65535) value name)
          else true)
  unfolding port_rule range_rule is_port_type
  port_rule_range value name = ground arith
