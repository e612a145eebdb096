-- ===== src/Middleware/Cors.antt =====
-- pkg/server/middleware/cors.go.
use goupter.Prelude.{
  String, Bool, true, false, List, [], ◌∷◌, ◌++◌, ◌==◌, string_key, if◌then◌else◌,
}
use goupter.Prelude.Int.{ℤ, pos, ltb_ℤ}
use goupter.Middleware.Gin.{GinCall, header, abort_status, next}
use goupter.Config.Values.{join}
use goupter.Middleware.Auth.{contains}

pub record CorsConfig : Type 0 where
  pub allow_origins : List String
  pub allow_methods : List String
  pub allow_headers : List String
  pub expose_headers : List String
  pub allow_credentials : Bool
  pub max_age : ℤ

unfoldable pub default_cors_config : CorsConfig
default_cors_config = record {
  allow_origins = "*" ∷ [];
  allow_methods = "GET" ∷ "POST" ∷ "PUT" ∷ "PATCH" ∷ "DELETE" ∷ "HEAD" ∷ "OPTIONS" ∷ [];
  allow_headers =
      "Origin" ∷ "Content-Type" ∷ "Accept" ∷ "Authorization" ∷ "X-Request-ID" ∷ "X-Trace-ID" ∷ [];
  expose_headers = "Content-Length" ∷ "X-Request-ID" ∷ "X-Trace-ID" ∷ [];
  allow_credentials = true;
  max_age = pos 86400;
}

-- The empty text for none.
unfoldable pub allow_origin : CorsConfig → String → String
unfolding contains
allow_origin cfg origin =
    if contains "*" cfg.allow_origins
    then (if cfg.allow_credentials then origin else "*")
    else if contains origin cfg.allow_origins
    then origin
    else ""

unfoldable pub not_empty : String → Bool
not_empty t = if t == "" then false else true

module _ {I : Type 0} where
  unfoldable pub header_if : Bool → String → String → List (GinCall I)
  header_if b key value = if b then header key value ∷ [] else []

  -- `rune_text` is the conversion of a rune to a text.
  unfoldable pub preflight : (ℤ → String) → CorsConfig → List (GinCall I)
  unfolding header_if join
  preflight rune_text cfg =
      header "Access-Control-Allow-Methods" (join cfg.allow_methods ", ")
      ∷ header "Access-Control-Allow-Headers" (join cfg.allow_headers ", ")
      ∷ (header_if (ltb_ℤ (pos 0) cfg.max_age) "Access-Control-Max-Age" (rune_text cfg.max_age)
          ++ (abort_status (pos 204) ∷ []))

  unfoldable pub cors_with_config : (ℤ → String) → CorsConfig → String → String → List (GinCall I)
  unfolding allow_origin header_if not_empty preflight join
  cors_with_config rune_text cfg method origin =
      header_if (not_empty (allow_origin cfg origin)) "Access-Control-Allow-Origin"
        (allow_origin cfg origin)
      ++ (header_if cfg.allow_credentials "Access-Control-Allow-Credentials" "true"
          ++ (header_if (not_empty (join cfg.expose_headers ", ")) "Access-Control-Expose-Headers"
                (join cfg.expose_headers ", ")
              ++ (if method == "OPTIONS" then preflight rune_text cfg else next ∷ [])))

  unfoldable pub cors_allow_all : String → String → List (GinCall I)
  cors_allow_all method origin =
      header "Access-Control-Allow-Origin" (if origin == "" then "*" else origin)
      ∷ header "Access-Control-Allow-Credentials" "true"
      ∷ header "Access-Control-Allow-Methods" "GET, POST, PUT, PATCH, DELETE, HEAD, OPTIONS"
      ∷ header "Access-Control-Allow-Headers" "*"
      ∷ header "Access-Control-Expose-Headers" "*"
      ∷ header "Access-Control-Max-Age" "86400"
      ∷ (if method == "OPTIONS" then abort_status (pos 204) ∷ [] else next ∷ [])
