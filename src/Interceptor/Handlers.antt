-- ===== src/Interceptor/Handlers.antt =====
-- Recovery, authentication, timeout, rate limit and request id in
-- pkg/server/interceptor/interceptor.go. Each is written once for both kinds of call, and then given
-- for unary calls and for streams. A character of a text stands for a byte.
use Prim.Native.String.{len, slice}
use goupter.Prelude.{
  append, String, Bool, false, not, ◌||◌, Option, none, some, List, [], ◌∷◌, ◌==◌, string_key, ltb,
  ◌⊎◌, inl, inr, if◌then◌else◌,
}
use goupter.Prelude.Int.{ℤ}
use goupter.Interceptor.Types.{
  Errors, Context, Info, Outcome, returned, panicked, Handler, Interceptor, Results, unary_results,
  stream_results, FieldValue, error_level, Logger,
}

-- `skipMethods[method]` for the set made of the list.
unfoldable pub is_skipped : List String → String → Bool
is_skipped [] method = false
is_skipped (m ∷ methods) method = (m == method) || is_skipped methods method

module _ (grpc : Errors) where
  open grpc use {E, Code, status, internal, unauthenticated, resource_exhausted}

  -- `stack` is none where `EnableStack` is not set; `recovery_func` is none for nil.
  pub record RecoveryConfig (S Q A P : Type 0) : Type 0 where
    pub logger : Logger S Q A P
    pub stack : Option String
    pub recovery_func : Option (Context → P → Option E)

  -- The fields of the log entry.
  unfoldable pub panic_fields :
      {Q A P : Type 0} → String → P → Option String → List (String × FieldValue Q A P)
  panic_fields method p none =
      ("method", FieldValue.text method) ∷ ("panic", FieldValue.panic p) ∷ []
  panic_fields method p (some stack) =
      ("method", FieldValue.text method)
      ∷ ("panic", FieldValue.panic p)
      ∷ ("stack", FieldValue.text stack)
      ∷ []

  unfoldable pub handle_panic :
      {S Q A P : Type 0} → RecoveryConfig S Q A P → Context → P → String → S → S × Option E
  unfolding panic_fields
  handle_panic cfg ctx p method s =
      let s' = cfg.logger error_level "gRPC panic recovered" (panic_fields method p cfg.stack) s in
      (
        s',
        elim cfg.recovery_func [
          | none ↦ some (status internal "internal server error")
          | some f ↦ f ctx p
        ],
      )

  unfoldable pub recovered :
      {S Q A R P : Type 0}
      → Results E R
      → RecoveryConfig S Q A P
      → Context
      → Info
      → S × Outcome R P
      → S × Outcome R P
  unfolding handle_panic
  recovered results cfg ctx info (s, returned r) = (s, returned r)
  recovered results cfg ctx info (s, panicked p) =
      let (s', err) = handle_panic cfg ctx p info.full_method s in
      (s', returned (results.of_err err))

  unfoldable pub recovery :
      {S Q A R P : Type 0} → Results E R → RecoveryConfig S Q A P → Interceptor S Q R P
  unfolding recovered
  recovery results cfg ctx req info handler s = recovered results cfg ctx info (handler ctx req s)

  unfoldable pub unary_recovery :
      {S Q A P : Type 0} → RecoveryConfig S Q A P → Interceptor S Q (Option A × Option E) P
  unfolding recovery
  unary_recovery cfg = recovery unary_results cfg

  unfoldable pub stream_recovery :
      {S Q A P : Type 0} → RecoveryConfig S Q A P → Interceptor S Q (Option E) P
  unfolding recovery
  stream_recovery cfg = recovery stream_results cfg

  -- `token_validator` is none for nil.
  pub record AuthConfig (S : Type 0) : Type 0 where
    pub token_validator : Option (Context → String → S → S × (E ⊎ String))
    pub skip_methods : List String
    pub auth_scheme : String
    pub metadata_key : String

  unfoldable pub default_auth_config : {S : Type 0} → AuthConfig S
  default_auth_config = record {
    token_validator = none;
    skip_methods =
        "/grpc.health.v1.Health/Check" ∷ "/grpc.health.v1.Health/Watch"
        ∷ "/grpc.reflection.v1alpha.ServerReflection/ServerReflectionInfo" ∷ [];
    auth_scheme = "Bearer";
    metadata_key = "authorization";
  }

  unfoldable pub fill_auth_config : {S : Type 0} → AuthConfig S → AuthConfig S
  fill_auth_config cfg = record cfg {
    metadata_key = if cfg.metadata_key == "" then "authorization" else cfg.metadata_key;
    auth_scheme = if cfg.auth_scheme == "" then "Bearer" else cfg.auth_scheme;
  }

  -- The part of `extractToken` after `values[0]`.
  unfoldable pub token_after : String → String → E ⊎ String
  token_after scheme auth =
      let prefix = append scheme " " in
      if ltb (len auth) (len prefix)
      then inl (status unauthenticated "invalid authorization format")
      else inr (slice auth (len prefix) (len auth))

  unfoldable pub first_token : String → List String → E ⊎ String
  unfolding token_after
  first_token scheme [] = inl (status unauthenticated "missing authorization token")
  first_token scheme (auth ∷ values) = token_after scheme auth

  unfoldable pub extract_token : Context → String → String → E ⊎ String
  unfolding first_token
  extract_token ctx metadata_key scheme = elim ctx.metadata [
    | none ↦ inl (status unauthenticated "missing metadata")
    | some get ↦ first_token scheme (get metadata_key)
  ]

  -- The validator's error as the interceptor passes it on.
  unfoldable pub unauthenticated_of : E ⊎ String → E ⊎ String
  unauthenticated_of (inl err) = inl (status unauthenticated (grpc.text err))
  unauthenticated_of (inr user_id) = inr user_id

  -- The user, or the error of the interceptor.
  unfoldable pub validate_token :
      {S : Type 0} → AuthConfig S → Context → String → S → S × (E ⊎ String)
  unfolding unauthenticated_of
  validate_token cfg ctx token s = elim cfg.token_validator [
    | none ↦ (s, inl (status internal "token validator not configured"))
    | some validate ↦ let (s', answer) = validate ctx token s in (s', unauthenticated_of answer)
  ]

  -- The handler with the user in its context, or the error.
  unfoldable pub with_user :
      {S Q R P : Type 0}
      → Results E R
      → Context
      → Q
      → Handler S Q R P
      → S × (E ⊎ String)
      → S × Outcome R P
  with_user results ctx req handler (s, inl err) = (s, returned (results.of_err (some err)))
  with_user results ctx req handler (s, inr user_id) =
      handler (record ctx { user_id = some user_id }) req s

  unfoldable pub auth : {S Q R P : Type 0} → Results E R → AuthConfig S → Interceptor S Q R P
  unfolding fill_auth_config extract_token validate_token with_user is_skipped
  auth results given ctx req info handler s =
      let cfg = fill_auth_config given in
      if is_skipped cfg.skip_methods info.full_method
      then handler ctx req s
      else (elim (extract_token ctx cfg.metadata_key cfg.auth_scheme) [
        | inl err ↦ (s, returned (results.of_err (some err)))
        | inr token ↦ with_user results ctx req handler (validate_token cfg ctx token s)
      ])

  unfoldable pub unary_auth :
      {S Q A P : Type 0} → AuthConfig S → Interceptor S Q (Option A × Option E) P
  unfolding auth
  unary_auth cfg = auth unary_results cfg

  unfoldable pub stream_auth : {S Q P : Type 0} → AuthConfig S → Interceptor S Q (Option E) P
  unfolding auth
  stream_auth cfg = auth stream_results cfg

  -- `context.WithTimeout` adds a bound to those of the context.
  unfoldable pub unary_timeout : {S Q R P : Type 0} → ℤ → Interceptor S Q R P
  unary_timeout timeout ctx req info handler s =
      handler (record ctx { timeouts = timeout ∷ ctx.timeouts }) req s

  unfoldable pub rate_limit :
      {S Q R P : Type 0} → Results E R → (S → S × Bool) → Interceptor S Q R P
  rate_limit results allow ctx req info handler s =
      let (s', ok) = allow s in
      if not ok
      then (s', returned (results.of_err (some (status resource_exhausted "rate limit exceeded"))))
      else handler ctx req s'

  unfoldable pub unary_rate_limit :
      {S Q A P : Type 0} → (S → S × Bool) → Interceptor S Q (Option A × Option E) P
  unfolding rate_limit
  unary_rate_limit allow = rate_limit unary_results allow

  unfoldable pub stream_rate_limit :
      {S Q P : Type 0} → (S → S × Bool) → Interceptor S Q (Option E) P
  unfolding rate_limit
  stream_rate_limit allow = rate_limit stream_results allow

-- The first value under the key, and nothing where there is none.
unfoldable pub first_value : Option (String → List String) → String → Option String
first_value none key = none
first_value (some get) key = elim (get key) [ [] ↦ none | value ∷ values ↦ some value ]

-- The id of the call: that of the metadata, or a generated one; `generator` is none for nil.
unfoldable pub choose_request_id : {S : Type 0} → Option (S → S × String) → Context → S → S × String
unfolding first_value
choose_request_id generator ctx s =
    let given : String = elim (first_value ctx.metadata "x-request-id") [
      | none ↦ ""
      | some id ↦ id
    ] in
    elim generator [
      | none ↦ (s, given)
      | some generate ↦ if given == "" then generate s else (s, given)
    ]

-- `set_header` puts the id in the header of the response; its error is dropped.
unfoldable pub request_id :
    {S Q R P : Type 0} → Option (S → S × String) → (String → S → S) → Interceptor S Q R P
unfolding choose_request_id
request_id generator set_header ctx req info handler s =
    let (s', id) = choose_request_id generator ctx s in
    handler (record ctx { request_id = some id }) req (set_header id s')
