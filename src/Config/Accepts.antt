-- ===== src/Config/Accepts.antt =====
-- What pkg/config/validator.go accepts as a whole.
use goupter.Prelude.{
  ◌⊎◌, arith, inl, inr, Bool-cases, false, String, ◌≡◌, refl, ◌↔◌, Option, none, some, List, [],
  string_key,
}
use goupter.Prelude.Float.{Float64}
use goupter.Config.Types.{Config, TraceConfig}
use goupter.Config.Values.{Std, ValidationError, has_errors}
use goupter.Config.Validator.{
  ConfigValidator, ValidationRule, add_rule, validate_app, validate_server, validate_database,
  validate_redis, validate_consul, validate_nats, validate_log, validate_trace, validate_config,
  validate, new_config_validator, validate_and_load, must_validate_config, trace_checks,
}
use goupter.Config.IsValid.{IsValidTrace, IsValidConfig}
use goupter.Config.Tests.{
  also, nothing, through, reported-Passes, is_text, enabled, neither, only, joined,
}
use goupter.Config.Sections.{
  validate_app_iff, validate_server_iff, validate_database_iff, validate_redis_iff,
  validate_consul_iff, validate_nats_iff, validate_log_iff,
}

module _ (fl : Float64) where
  open fl use {F, of_int, lt}

  validate_trace_iff : (cfg : TraceConfig F) → (validate_trace fl cfg ≡ []) ↔ IsValidTrace fl cfg
  unfolding validate_trace trace_checks
  validate_trace_iff cfg = through (reported-Passes (trace_checks fl cfg)) (
      also (enabled cfg.enabled _ _ (is_text cfg.service_name ""))
        (also (enabled cfg.enabled _ _ (is_text cfg.endpoint "")) (also (neither _ _) nothing)))

  -- The validator accepts a configuration, with no error at all, exactly when every field is as its
  -- section asks: ports from 0 to 65535, no negative durations and sizes, texts among those that are
  -- listed (or empty where that is allowed), durations that parse, no more idle than open database
  -- connections where both are limited, the addresses that the Redis mode needs, a NATS address with
  -- a known scheme, and the names that enabled tracing needs. It depends on nothing that the
  -- validator held before.
  pub validate_config-IsValid :
      {V : Type 0} (v : ConfigValidator F) (std : Std) (cfg : Config F V)
      → ((validate_config fl v std (some cfg)).errors ≡ []) ↔ IsValidConfig fl std cfg
  unfolding validate_config
  validate_config-IsValid {V} v std cfg =
      joined (validate_app cfg.app) _ (validate_app_iff cfg.app) (
        joined (validate_server cfg.server) _ (validate_server_iff cfg.server) (
          joined (validate_database cfg.database) _ (validate_database_iff cfg.database) (
            joined (validate_redis cfg.redis) _ (validate_redis_iff cfg.redis) (
              joined (validate_consul std cfg.consul) _ (validate_consul_iff std cfg.consul) (
                joined (validate_nats cfg.nats) _ (validate_nats_iff cfg.nats) (
                  joined (validate_log cfg.log) _ (validate_log_iff cfg.log)
                    (only (validate_trace_iff cfg.trace))))))))

  -- The rules that `AddRule` collects are never applied: whatever rules a validator was given, for
  -- whatever fields, it reports for every configuration, the nil one too, what it reports without them.
  pub validate_config-add_rule :
      {V : Type 0} (v : ConfigValidator F) (name : String) (rules : List (ValidationRule F))
      (std : Std) (cfg : Option (Config F V))
      → (validate_config fl (add_rule v name rules) std cfg).errors
        ≡ (validate_config fl v std cfg).errors
  unfolding validate_config add_rule
  validate_config-add_rule {V} v name rules std none = refl
  validate_config-add_rule {V} v name rules std (some cfg) = refl

  has_errors_iff :
      {A : Type 0} (errs : List (ValidationError A)) → (has_errors errs ≡ false) ↔ (errs ≡ [])
  unfolding has_errors
  has_errors_iff errs = ground arith

  valid_iff :
      {V : Type 0} (std : Std) (cfg : Config F V)
      → (has_errors (validate fl std (some cfg)) ≡ false) ↔ IsValidConfig fl std cfg
  unfolding validate
  valid_iff std cfg =
      through (has_errors_iff (validate fl std (some cfg)))
        (validate_config-IsValid new_config_validator std cfg)

  -- `ValidateAndLoad` gives a configuration exactly when `Load` has given that one and it is valid:
  -- an error of `Load` and an error of the validator both leave no configuration.
  pub validate_and_load-IsValid :
      {E V : Type 0} (std : Std) (loaded : E ⊎ Config F V) (cfg : Config F V)
      → (validate_and_load fl std loaded ≡ inr cfg)
        ↔ ((loaded ≡ inr cfg) × IsValidConfig fl std cfg)
  unfolding validate_and_load
  validate_and_load-IsValid std (inl err) cfg = ground arith
  validate_and_load-IsValid std (inr given) cfg =
      elim (Bool-cases (has_errors (validate fl std (some given)))) [
        | inl e ↦ (
          (λ h. absurd (ground (arith, h, e))),
          λ (q, v). absurd (ground (arith, q, e, (valid_iff std cfg).1 v)),
        )
        | inr e ↦ (
          (λ h. (ground (arith, h, e), (valid_iff std cfg).0 (ground (arith, h, e)))),
          λ (q, v). ground (arith, q, e),
        )
      ]

  -- `MustValidateConfig` returns, without a panic, exactly for a valid configuration.
  pub must_validate_config-IsValid :
      {V : Type 0} (std : Std) (cfg : Config F V)
      → (must_validate_config fl std (some cfg) ≡ none) ↔ IsValidConfig fl std cfg
  unfolding must_validate_config
  must_validate_config-IsValid std cfg = through (ground arith) (valid_iff std cfg)
