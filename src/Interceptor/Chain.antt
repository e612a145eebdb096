-- ===== src/Interceptor/Chain.antt =====
-- The chains of interceptors of pkg/server/interceptor/interceptor.go.
use mathlib.Core.List.{reverse}
use goupter.Prelude.{String, false, Option, none, some, List, [], ◌∷◌}
use goupter.Prelude.Int.{ℤ, pos}
use goupter.Interceptor.Types.{Errors, Info, Handler, Interceptor, Logger}
use goupter.Interceptor.Handlers.{RecoveryConfig, unary_recovery, stream_recovery}
use goupter.Interceptor.Logging.{LoggingConfig, unary_logging, stream_logging}

abbrev pub health_methods : List String
health_methods = "/grpc.health.v1.Health/Check" ∷ "/grpc.health.v1.Health/Watch" ∷ []

module _ {S Q R P : Type 0} where
  -- The loop from the last index down to 0, over the interceptors in that order.
  unfoldable pub wrap_all : Info → List (Interceptor S Q R P) → Handler S Q R P → Handler S Q R P
  wrap_all info [] chain = chain
  wrap_all info (interceptor ∷ interceptors) chain =
      wrap_all info interceptors (λ ctx req. interceptor ctx req info chain)

  unfoldable pub chain_interceptors : List (Interceptor S Q R P) → Interceptor S Q R P
  unfolding wrap_all
  chain_interceptors interceptors ctx req info handler =
      wrap_all info (reverse interceptors) handler ctx req

module _ (grpc : Errors) where
  open grpc use {E}

  unfoldable pub chain_unary_interceptors :
      {S Q A P : Type 0}
      → List (Interceptor S Q (Option A × Option E) P)
      → Interceptor S Q (Option A × Option E) P
  unfolding chain_interceptors
  chain_unary_interceptors interceptors = chain_interceptors interceptors

  unfoldable pub chain_stream_interceptors :
      {S Q P : Type 0} → List (Interceptor S Q (Option E) P) → Interceptor S Q (Option E) P
  unfolding chain_interceptors
  chain_stream_interceptors interceptors = chain_interceptors interceptors

  -- `DefaultRecoveryConfig` and `DefaultLoggingConfig` with a logger, the text of the stack and a clock.
  unfoldable pub default_recovery :
      {S Q A P : Type 0} → Logger S Q A P → String → RecoveryConfig grpc S Q A P
  default_recovery logger stack = record {
    logger = logger;
    stack = some stack;
    recovery_func = none;
  }

  unfoldable pub default_logging :
      {S Q A P : Type 0} → Logger S Q A P → (S → S × ℤ) → LoggingConfig grpc S Q A P
  default_logging logger now = record {
    logger = logger;
    now = now;
    slow_threshold = pos 200000000;
    skip_methods = health_methods;
    log_payload = false;
  }

  unfoldable pub default_unary_interceptors :
      {S Q A P : Type 0}
      → Logger S Q A P
      → String
      → (S → S × ℤ)
      → List (Interceptor S Q (Option A × Option E) P)
  unfolding default_recovery default_logging
  default_unary_interceptors logger stack now =
      unary_recovery grpc (default_recovery logger stack)
      ∷ unary_logging grpc (default_logging logger now)
      ∷ []

  unfoldable pub default_stream_interceptors :
      {S Q A P : Type 0}
      → Logger S Q A P
      → String
      → (S → S × ℤ)
      → List (Interceptor S Q (Option E) P)
  unfolding default_recovery default_logging
  default_stream_interceptors logger stack now =
      stream_recovery grpc (default_recovery logger stack)
      ∷ stream_logging grpc (default_logging logger now)
      ∷ []
