-- ===== src/Interceptor/ChainLaws.antt =====
-- The order in which a chain runs, and what the default chain does.
use mathlib.Core.List.{reverse, reverse-append}
use goupter.Prelude.{
  String, ◌≡◌, refl, sym, ap, ◌∙◌, false, Option, none, some, List, [], ◌∷◌, ◌++◌,
}
use goupter.Prelude.Int.{ℤ}
use goupter.Interceptor.Types.{
  Errors, Context, Info, Outcome, returned, panicked, Handler, Interceptor, Logger, error_level,
  unary_results,
}
use goupter.Interceptor.Handlers.{
  is_skipped, unary_recovery, recovery, recovered, handle_panic, panic_fields,
}
use goupter.Interceptor.Logging.{log_unary, unary_logging}
use goupter.Interceptor.Chain.{
  wrap_all, chain_interceptors, chain_unary_interceptors, default_unary_interceptors,
  default_recovery, default_logging, health_methods,
}

module _ {S Q R P : Type 0} where
  -- The interceptors around the handler, the first outermost.
  pub nested : List (Interceptor S Q R P) → Interceptor S Q R P
  nested [] ctx req info handler = handler ctx req
  nested (i ∷ is) ctx req info handler = i ctx req info (λ c r. nested is c r info handler)

  wrap_all-append :
      (info : Info) (xs ys : List (Interceptor S Q R P)) (h : Handler S Q R P)
      → wrap_all info (xs ++ ys) h ≡ wrap_all info ys (wrap_all info xs h)
  unfolding wrap_all
  wrap_all-append info [] ys h = refl
  wrap_all-append info (x ∷ xs) ys h = wrap_all-append info xs ys (λ ctx req. x ctx req info h)

  wrap_all-nested :
      (info : Info) (is : List (Interceptor S Q R P)) (h : Handler S Q R P)
      → wrap_all info (reverse is) h ≡ (λ ctx req. nested is ctx req info h)
  unfolding nested wrap_all
  wrap_all-nested info [] h = refl
  wrap_all-nested info (i ∷ is) h =
      ap (λ (l : List (Interceptor S Q R P)). wrap_all info l h) (reverse-append (i ∷ []) is)
      ∙ wrap_all-append info (reverse is) (i ∷ []) h
      ∙ (λ k ctx req. i ctx req info (wrap_all-nested info is h k))

  nested-append :
      (is js : List (Interceptor S Q R P)) (ctx : Context) (req : Q) (info : Info)
      (h : Handler S Q R P)
      → nested (is ++ js) ctx req info h ≡ nested is ctx req info (λ c r. nested js c r info h)
  unfolding nested
  nested-append [] js ctx req info h = refl
  nested-append (i ∷ is) js ctx req info h =
      λ k. i ctx req info (λ c r. nested-append is js c r info h k)

  -- A chain runs its interceptors in their order, the first outermost: it is the first one around the
  -- chain of the others, and with none it is the handler. A chain of two rows is the chain of
  -- the first around the chain of the second.
  pub chain_interceptors-nested :
      (is js : List (Interceptor S Q R P)) (ctx : Context) (req : Q) (info : Info)
      (h : Handler S Q R P)
      → (chain_interceptors is ctx req info h ≡ nested is ctx req info h)
        × (chain_interceptors (is ++ js) ctx req info h
            ≡ chain_interceptors is ctx req info (λ c r. chain_interceptors js c r info h))
  unfolding chain_interceptors
  chain_interceptors-nested is js ctx req info h = (
    whole is h ctx req,
    whole (is ++ js) h ctx req
        ∙ nested-append is js ctx req info h
        ∙ sym (whole is (λ c r. nested js c r info h) ctx req)
        ∙ (λ k. chain_interceptors is ctx req info (λ c r. sym (whole js h c r) k)),
  )
    where
      whole :
          (l : List (Interceptor S Q R P)) (h : Handler S Q R P) (ctx : Context) (req : Q)
          → chain_interceptors l ctx req info h ≡ nested l ctx req info h
      whole l h ctx req = λ k. wrap_all-nested info l h k ctx req

module _ (grpc : Errors) {S Q A P : Type 0} where
  open grpc use {E, status, internal}

  -- What becomes of a handler's outcome: an answer is logged, by the clock `begun` before the handler;
  -- a panic leaves the one entry of the recovery.
  pub settled :
      Logger S Q A P
      → String
      → (S → S × ℤ)
      → Context
      → Q
      → Info
      → ℤ
      → S × Outcome (Option A × Option E) P
      → S × Outcome (Option A × Option E) P
  settled logger stack now ctx req info begun (t, returned answer) =
      log_unary grpc (default_logging grpc logger now) ctx req info begun (t, returned answer)
  settled logger stack now ctx req info begun (t, panicked p) = (
    logger error_level "gRPC panic recovered" (panic_fields grpc info.full_method p (some stack)) t,
    returned (none, some (status internal "internal server error")),
  )

  recovered-log_unary :
      (logger : Logger S Q A P) (stack : String) (now : S → S × ℤ) (ctx : Context) (req : Q)
      (info : Info) (begun : ℤ) (o : S × Outcome (Option A × Option E) P)
      → recovered grpc unary_results
          (default_recovery grpc logger stack)
          ctx
          info
          (log_unary grpc (default_logging grpc logger now) ctx req info begun o)
        ≡ settled logger stack now ctx req info begun o
  unfolding recovered handle_panic default_recovery settled log_unary
  recovered-log_unary logger stack now ctx req info begun (t, returned (resp, err)) = refl
  recovered-log_unary logger stack now ctx req info begun (t, panicked p) = refl

  -- The default chain on a method that it does not skip: a handler that returns has its answer passed
  -- on, with the one log entry of the logging interceptor; a handler that panics has the panic
  -- stopped and answered by an internal error without a response, and the one entry is that of the
  -- recovery, so that the request itself is not logged. The clock is read before the handler.
  pub default_unary_interceptors_lem :
      (logger : Logger S Q A P) (stack : String) (now : S → S × ℤ) (ctx : Context) (req : Q)
      (info : Info) (h : Handler S Q (Option A × Option E) P) (s : S)
      → is_skipped health_methods info.full_method ≡ false
      → chain_unary_interceptors grpc
          (default_unary_interceptors grpc logger stack now)
          ctx
          req
          info
          h
          s
        ≡ settled logger stack now ctx req info (now s).1 (h ctx req (now s).0)
  unfolding chain_unary_interceptors default_unary_interceptors unary_recovery unary_logging
      recovery
  default_unary_interceptors_lem logger stack now ctx req info h s shown =
      rw shown (recovered-log_unary logger stack now ctx req info (now s).1 (h ctx req (now s).0))
