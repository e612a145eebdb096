-- ===== src/Examples/Middleware.antt =====
-- Examples about pkg/server/middleware/auth.go and cors.go.
use goupter.Prelude.{
  String, ◌≡◌, refl, true, none, some, List, [], ◌∷◌, ◌==◌, ◌↔◌, string_key, All, if◌then◌else◌,
}
use goupter.Prelude.Int.{ℤ, pos}
use goupter.Middleware.Gin.{goes_on, set_info, next, abort_json}
use goupter.Middleware.Auth.{
  AuthInfo, BearerAuthConfig, bearer_auth_with_config, begins_with, token_of, after_validate,
  is_expired, contains, require_roles, require_any_role, require_scopes, check_scopes, forbidden,
  has_scope,
}
use goupter.Middleware.AuthLaws.{
  Accepted, bearer_auth_with_config-Accepted, Among, SomeOf, goes_on-require_roles,
}
use goupter.Middleware.Cors.{CorsConfig, cors_with_config, default_cors_config}
use goupter.Middleware.SecurityLaws.{
  value_of, cors_with_config-allow_origins, cors_with_config-default,
}

abbrev ann : AuthInfo Unit
ann = record {
  user_id = "7";
  username = "ann";
  roles = "editor" ∷ "reader" ∷ [];
  scopes = "read" ∷ [];
  extra = tt;
  expires_at = some (pos 100);
}

-- The validator counts its calls.
abbrev config : BearerAuthConfig Unit String ℤ
config = record {
  validate = λ token s. (
    pos 1,
    (if token == "secret" then some ann else none),
    (if token == "secret" then none else some "no"),
  );
  realm = "";
  skip_paths = "/health" ∷ [];
  error_handler = none;
}

bearer_auth_with_config-Accepted_example :
    Accepted (λ e. e) config "Bearer secret" (pos 50) (pos 0) (set_info ann ∷ next ∷ [])
unfolding bearer_auth_with_config begins_with token_of after_validate is_expired contains goes_on
bearer_auth_with_config-Accepted_example =
    bearer_auth_with_config-Accepted (λ e. e) config "/cart" "Bearer secret" (pos 50) (pos 0)
      (set_info ann ∷ next ∷ []) refl refl refl refl

abbrev wanted : List String
wanted = "reader" ∷ []

goes_on-require_roles_example :
    ((goes_on (require_roles wanted (some ann)) ≡ true) ↔ All (λ t. Among t ann.roles) wanted)
    × ((goes_on (require_any_role wanted (some ann)) ≡ true)
        ↔ SomeOf (λ t. Among t ann.roles) wanted)
    × ((goes_on (require_scopes wanted (some ann)) ≡ true) ↔ All (λ t. Among t ann.scopes) wanted)
goes_on-require_roles_example = goes_on-require_roles wanted (some ann)

-- A scope that is missing stops the chain.
scope_missing :
    require_scopes wanted (some ann) ≡ abort_json (pos 403) (pos 403) "insufficient scope" ∷ []
unfolding require_scopes check_scopes forbidden has_scope contains
scope_missing = refl

abbrev shop : CorsConfig
shop = record default_cors_config { allow_origins = "https://shop.example" ∷ [] }

abbrev rune : ℤ → String
rune n = "x"

cors_with_config-allow_origins_example :
    value_of {I = Unit} "Access-Control-Allow-Origin"
      (cors_with_config rune shop "OPTIONS" "https://shop.example")
    ≡ (if contains "https://shop.example" shop.allow_origins
        then some "https://shop.example"
        else none)
unfolding default_cors_config contains
cors_with_config-allow_origins_example =
    cors_with_config-allow_origins Unit rune shop "OPTIONS" "https://shop.example" refl

cors_with_config-default_example :
    (value_of {I = Unit} "Access-Control-Allow-Origin"
        (cors_with_config rune default_cors_config "GET" "https://evil.example")
      ≡ some "https://evil.example")
    × (value_of {I = Unit} "Access-Control-Allow-Credentials"
          (cors_with_config rune default_cors_config "GET" "https://evil.example")
        ≡ some "true")
cors_with_config-default_example = cors_with_config-default Unit rune "https://evil.example" refl
