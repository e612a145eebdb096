-- ===== src/Config/Rules.antt =====
-- The rules for single values in pkg/config/validator.go. `len` of a text counts its bytes.
use Prim.Native.String.{len}
use goupter.Prelude.{
  append, String, Bool, true, false, not, ◌&&◌, Option, none, some, List, ◌==◌, string_key, nat_key,
  is_none, if◌then◌else◌,
}
use goupter.Prelude.Float.{Float64}
use goupter.Prelude.Int.{ℤ, pos, negsuc, ltb_ℤ}
use goupter.Config.Values.{AnyValue, Std, ValidationError, contains_string, join}
use goupter.Config.Validator.{bad, bare, outside, port_message}

-- The error where the test holds, and nil otherwise.
abbrev pub when : {F : Type 0} → Bool → ValidationError F → Option (ValidationError F)
when failed e = if failed then some e else none

abbrev pub is_zero : ℤ → Bool
is_zero (pos n) = n == 0
is_zero (negsuc n) = false

module _ (fl : Float64) (std : Std) where
  open fl use {F, of_int, le}

  unfoldable pub is_empty_value : AnyValue F → Bool
  is_empty_value AnyValue.nil = true
  is_empty_value (AnyValue.text s) = s == ""
  is_empty_value (AnyValue.sequence n) = n == 0
  is_empty_value (AnyValue.mapping n) = n == 0
  is_empty_value (AnyValue.flag b) = not b
  is_empty_value (AnyValue.int n) = is_zero n
  is_empty_value (AnyValue.int64 n) = is_zero n
  is_empty_value (AnyValue.other_int n) = is_zero n
  is_empty_value (AnyValue.uint n) = n == 0
  is_empty_value (AnyValue.float x) = le x (of_int (pos 0)) && le (of_int (pos 0)) x
  is_empty_value (AnyValue.pointer is_nil) = is_nil
  is_empty_value AnyValue.other = false

  unfoldable pub required : AnyValue F → String → Option (ValidationError F)
  unfolding is_empty_value
  required value name = when (is_empty_value value) (bare name "该字段为必填项")

  unfoldable pub min_rule : ℤ → AnyValue F → String → Option (ValidationError F)
  min_rule low (AnyValue.int n) name =
      when (ltb_ℤ n low) (bad name (append "值不能小于 " (std.format_int low)) (AnyValue.int n))
  min_rule low (AnyValue.int64 n) name =
      when (ltb_ℤ n low) (bad name (append "值不能小于 " (std.format_int low)) (AnyValue.int64 n))
  min_rule low (AnyValue.other_int n) name =
      when (ltb_ℤ n low) (bad name (append "值不能小于 " (std.format_int low)) (AnyValue.other_int n))
  min_rule low (AnyValue.text s) name =
      when (ltb_ℤ (pos (len s)) low)
        (bad name (append "长度不能小于 " (std.format_int low)) (AnyValue.text s))
  min_rule low (AnyValue.sequence k) name =
      when (ltb_ℤ (pos k) low)
        (bad name (append "元素数量不能少于 " (std.format_int low)) (AnyValue.sequence k))
  min_rule low _ name = none

  unfoldable pub max_rule : ℤ → AnyValue F → String → Option (ValidationError F)
  max_rule high (AnyValue.int n) name =
      when (ltb_ℤ high n) (bad name (append "值不能大于 " (std.format_int high)) (AnyValue.int n))
  max_rule high (AnyValue.int64 n) name =
      when (ltb_ℤ high n) (bad name (append "值不能大于 " (std.format_int high)) (AnyValue.int64 n))
  max_rule high (AnyValue.other_int n) name =
      when (ltb_ℤ high n) (bad name (append "值不能大于 " (std.format_int high)) (AnyValue.other_int n))
  max_rule high (AnyValue.text s) name =
      when (ltb_ℤ high (pos (len s)))
        (bad name (append "长度不能大于 " (std.format_int high)) (AnyValue.text s))
  max_rule high (AnyValue.sequence k) name =
      when (ltb_ℤ high (pos k))
        (bad name (append "元素数量不能多于 " (std.format_int high)) (AnyValue.sequence k))
  max_rule high _ name = none

  abbrev range_message : ℤ → ℤ → String
  range_message low high =
      append "值必须在 "
        (append (std.format_int low) (append " 到 " (append (std.format_int high) " 之间")))

  unfoldable pub range_rule : ℤ → ℤ → AnyValue F → String → Option (ValidationError F)
  range_rule low high (AnyValue.int n) name =
      when (outside low high n) (bad name (range_message low high) (AnyValue.int n))
  range_rule low high (AnyValue.int64 n) name =
      when (outside low high n) (bad name (range_message low high) (AnyValue.int64 n))
  range_rule low high (AnyValue.other_int n) name =
      when (outside low high n) (bad name (range_message low high) (AnyValue.other_int n))
  range_rule low high _ name = none

  -- A rule on texts alone: nil on any other value.
  abbrev on_text : (String → Bool) → String → AnyValue F → String → Option (ValidationError F)
  on_text failed message (AnyValue.text s) name =
      when (failed s) (bad name message (AnyValue.text s))
  on_text failed message _ name = none

  unfoldable pub one_of : List String → AnyValue F → String → Option (ValidationError F)
  unfolding contains_string join
  one_of values =
      on_text (λ s. not (contains_string values s)) (append "值必须是以下之一: " (join values ", "))

  unfoldable pub pattern_rule : String → AnyValue F → String → Option (ValidationError F)
  pattern_rule pattern = on_text (λ s. not (s == "") && not (std.match_string pattern s)) "格式不正确"

  abbrev email_regex : String
  email_regex = "^[a-zA-Z0-9._%+-]+@[a-zA-Z0-9.-]+\\.[a-zA-Z]{2,}$"

  unfoldable pub email : AnyValue F → String → Option (ValidationError F)
  email = on_text (λ s. not (s == "") && not (std.match_string email_regex s)) "邮箱格式不正确"

  abbrev url_regex : String
  url_regex =
      "^(http|https)://[a-zA-Z0-9][-a-zA-Z0-9]{0,62}(\\.[a-zA-Z0-9][-a-zA-Z0-9]{0,62})+(:[0-9]{1,5})?(/.*)?$"

  unfoldable pub url_rule : AnyValue F → String → Option (ValidationError F)
  url_rule = on_text (λ s. not (s == "") && not (std.match_string url_regex s)) "URL格式不正确"

  unfoldable pub ip_rule : AnyValue F → String → Option (ValidationError F)
  ip_rule = on_text (λ s. not (s == "") && not (std.parse_ip s)) "IP地址格式不正确"

  -- `int` and `int64` have the same width.
  unfoldable pub port_rule : AnyValue F → String → Option (ValidationError F)
  port_rule (AnyValue.int n) name =
      when (outside (pos 0) (pos 65535) n) (bad name port_message (AnyValue.int n))
  port_rule (AnyValue.int64 n) name =
      when (outside (pos 0) (pos 65535) n) (bad name port_message (AnyValue.int64 n))
  port_rule _ name = none

  unfoldable pub duration_rule : AnyValue F → String → Option (ValidationError F)
  duration_rule = on_text (λ s. not (s == "") && is_none (std.parse_duration s)) "时间间隔格式不正确"
