-- ===== src/Examples/Interceptor.antt =====
-- Examples about pkg/server/interceptor/interceptor.go. The state is a log of texts.
use goupter.Prelude.{String, ◌≡◌, refl, ◌⊎◌, inr, false, Option, none, some, List, [], ◌∷◌, ◌++◌}
use goupter.Prelude.Int.{ℤ, pos}
use goupter.Interceptor.Types.{
  Errors, Context, Info, returned, panicked, Handler, Interceptor, Logger, unary_results,
}
use goupter.Interceptor.Handlers.{is_skipped, AuthConfig, extract_token}
use goupter.Interceptor.HandlerLaws.{Admitted, Refused, auth-Admitted, extract_token_any_scheme}
use goupter.Interceptor.Chain.{
  chain_interceptors, chain_unary_interceptors, default_unary_interceptors, health_methods,
}
use goupter.Interceptor.ChainLaws.{
  nested, chain_interceptors-nested, settled, default_unary_interceptors_lem,
}

abbrev grpc : Errors
grpc = record {
  E = String × String;
  Code = String;
  status = λ code message. (code, message);
  text = λ err. err.1;
  code_of = λ err. err.0;
  code_text = λ code. code;
  ok = "OK";
  internal = "Internal";
  unauthenticated = "Unauthenticated";
  resource_exhausted = "ResourceExhausted";
}

abbrev Answer : Type 0
Answer = Option String × Option (String × String)

abbrev metadata : String → List String
metadata key = "Digest secret" ∷ []

abbrev ctx : Context
ctx = record {
  metadata = some metadata;
  peer = none;
  user_id = none;
  request_id = none;
  timeouts = [];
}

abbrev info : Info
info = record { full_method = "/shop.Cart/Add"; is_client_stream = false; is_server_stream = false }

abbrev handler : Handler (List String) String Answer String
handler c req s = (("handler" ∷ s), returned (some req, none))

abbrev crash : Handler (List String) String Answer String
crash c req s = (("crash" ∷ s), panicked "nil map")

abbrev note : String → Interceptor (List String) String Answer String
note name c req i h s = h c req (name ∷ s)

abbrev outer : List (Interceptor (List String) String Answer String)
outer = note "a" ∷ note "b" ∷ []

abbrev inner : List (Interceptor (List String) String Answer String)
inner = note "c" ∷ []

chain_interceptors-nested_example :
    (chain_interceptors outer ctx "apple" info handler ≡ nested outer ctx "apple" info handler)
    × (chain_interceptors (outer ++ inner) ctx "apple" info handler
        ≡ chain_interceptors outer ctx "apple" info
            (λ c r. chain_interceptors inner c r info handler))
chain_interceptors-nested_example = chain_interceptors-nested outer inner ctx "apple" info handler

abbrev logger : Logger (List String) String String String
logger level message fields s = message ∷ s

abbrev now : List String → List String × ℤ
now s = (s, pos 5)

default_unary_interceptors_lem_example :
    chain_unary_interceptors grpc
      (default_unary_interceptors grpc logger "stack" now)
      ctx
      "apple"
      info
      crash
      []
    ≡ settled grpc logger "stack" now ctx "apple" info (pos 5) ("crash" ∷ [], panicked "nil map")
unfolding is_skipped
default_unary_interceptors_lem_example =
    default_unary_interceptors_lem grpc logger "stack" now ctx "apple" info crash [] refl

abbrev validate : Context → String → List String → List String × ((String × String) ⊎ String)
validate c token s = ("validated" ∷ s, inr token)

abbrev config : AuthConfig grpc (List String)
config = record {
  token_validator = some validate;
  skip_methods = health_methods;
  auth_scheme = "";
  metadata_key = "";
}

auth-Admitted_example :
    Admitted grpc String (unary_results {A = String}) config ctx "apple" info handler []
    ⊎ Refused grpc {Q = String} String (unary_results {A = String}) config ctx "apple" info []
unfolding is_skipped
auth-Admitted_example =
    auth-Admitted grpc String (unary_results {A = String}) config ctx "apple" info handler [] refl

extract_token_any_scheme_example : extract_token grpc ctx "authorization" "Bearer" ≡ inr "secret"
extract_token_any_scheme_example =
    extract_token_any_scheme grpc ctx "authorization" "Bearer" "Digest" "secret" metadata [] refl
      refl refl
