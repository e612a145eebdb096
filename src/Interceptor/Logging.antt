-- ===== src/Interceptor/Logging.antt =====
-- The logging interceptors and `getClientIP` of pkg/server/interceptor/interceptor.go.
use goupter.Prelude.{
  String, Bool, true, false, Option, none, some, List, [], ◌∷◌, ◌++◌, string_key, if◌then◌else◌,
}
use goupter.Prelude.Int.{ℤ, ◌-ℤ◌, ltb_ℤ}
use goupter.Interceptor.Types.{
  Errors, Context, Info, Outcome, returned, panicked, Interceptor, FieldValue, LogLevel, info_level,
  warn_level, error_level, Logger,
}
use goupter.Interceptor.Handlers.{is_skipped, first_value}

-- The two keys of the metadata in turn, then the peer.
unfoldable pub get_client_ip : Context → String
unfolding first_value
get_client_ip ctx = elim (first_value ctx.metadata "x-forwarded-for") [
  | some ip ↦ ip
  | none ↦ elim (first_value ctx.metadata "x-real-ip") [
    | some ip ↦ ip
    | none ↦ elim ctx.peer [ none ↦ "" | some addr ↦ addr ]
  ]
]

module _ (grpc : Errors) where
  open grpc use {E}

  -- `now` reads the clock.
  pub record LoggingConfig (S Q A P : Type 0) : Type 0 where
    pub logger : Logger S Q A P
    pub now : S → S × ℤ
    pub slow_threshold : ℤ
    pub skip_methods : List String
    pub log_payload : Bool

  -- The field of an error, before the code.
  unfoldable pub error_fields : {Q A P : Type 0} → Option E → List (String × FieldValue Q A P)
  error_fields none = ("code", FieldValue.text (grpc.code_text grpc.ok)) ∷ []
  error_fields (some err) =
      ("error", FieldValue.text (grpc.text err))
      ∷ ("code", FieldValue.text (grpc.code_text (grpc.code_of err)))
      ∷ []

  -- `truncatePayload` gives the payload itself.
  unfoldable pub payload_fields :
      {Q A P : Type 0} → Bool → Q → Option A → List (String × FieldValue Q A P)
  payload_fields false req resp = []
  payload_fields true req none = ("request", FieldValue.request req) ∷ []
  payload_fields true req (some a) =
      ("request", FieldValue.request req) ∷ ("response", FieldValue.response a) ∷ []

  unfoldable pub unary_level : Option E → ℤ → ℤ → LogLevel × String
  unary_level (some err) duration threshold = (error_level, "gRPC request failed")
  unary_level none duration threshold =
      if ltb_ℤ threshold duration
      then (warn_level, "gRPC slow request")
      else (info_level, "gRPC request")

  -- After the handler; a panic passes by.
  unfoldable pub log_unary :
      {S Q A P : Type 0}
      → LoggingConfig S Q A P
      → Context
      → Q
      → Info
      → ℤ
      → S × Outcome (Option A × Option E) P
      → S × Outcome (Option A × Option E) P
  unfolding get_client_ip error_fields payload_fields unary_level
  log_unary cfg ctx req info start (s, panicked p) = (s, panicked p)
  log_unary cfg ctx req info start (s, returned (resp, err)) =
      let (s', later) = cfg.now s in
      let (level, message) = unary_level err (later -ℤ start) cfg.slow_threshold in
      (
        cfg.logger level message
            (("method", FieldValue.text info.full_method)
              ∷ ("client_ip", FieldValue.text (get_client_ip ctx))
              ∷ ("duration", FieldValue.duration (later -ℤ start))
              ∷ (error_fields err ++ payload_fields cfg.log_payload req resp))
            s',
        returned (resp, err),
      )

  unfoldable pub unary_logging :
      {S Q A P : Type 0} → LoggingConfig S Q A P → Interceptor S Q (Option A × Option E) P
  unfolding log_unary is_skipped
  unary_logging cfg ctx req info handler s =
      if is_skipped cfg.skip_methods info.full_method
      then handler ctx req s
      else (let (s', start) = cfg.now s in log_unary cfg ctx req info start (handler ctx req s'))

  unfoldable pub stream_level : Option E → ℤ → ℤ → LogLevel × String
  stream_level (some err) duration threshold = (error_level, "gRPC stream failed")
  stream_level none duration threshold =
      if ltb_ℤ threshold duration
      then (warn_level, "gRPC slow stream")
      else (info_level, "gRPC stream")

  unfoldable pub log_stream :
      {S Q A P : Type 0}
      → LoggingConfig S Q A P
      → Context
      → Info
      → ℤ
      → S × Outcome (Option E) P
      → S × Outcome (Option E) P
  unfolding get_client_ip error_fields stream_level
  log_stream cfg ctx info start (s, panicked p) = (s, panicked p)
  log_stream cfg ctx info start (s, returned err) =
      let (s', later) = cfg.now s in
      let (level, message) = stream_level err (later -ℤ start) cfg.slow_threshold in
      (
        cfg.logger level message
            (("method", FieldValue.text info.full_method)
              ∷ ("client_ip", FieldValue.text (get_client_ip ctx))
              ∷ ("duration", FieldValue.duration (later -ℤ start))
              ∷ ("client_stream", FieldValue.flag info.is_client_stream)
              ∷ ("server_stream", FieldValue.flag info.is_server_stream)
              ∷ error_fields err)
            s',
        returned err,
      )

  unfoldable pub stream_logging :
      {S Q A P : Type 0} → LoggingConfig S Q A P → Interceptor S Q (Option E) P
  unfolding log_stream is_skipped
  stream_logging cfg ctx req info handler s =
      if is_skipped cfg.skip_methods info.full_method
      then handler ctx req s
      else (let (s', start) = cfg.now s in log_stream cfg ctx info start (handler ctx req s'))
