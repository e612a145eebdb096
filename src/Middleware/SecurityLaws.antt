-- ===== src/Middleware/SecurityLaws.antt =====
-- What pkg/server/middleware/cors.go tells a browser.
use goupter.Prelude.{
  String, ◌≡◌, refl, ◌∙◌, Bool, true, false, Option, none, some, List, [], ◌∷◌, ◌++◌, ◌==◌,
  string_key, if◌then◌else◌, arith, Bool-cases, inl, inr,
}
use goupter.Prelude.Int.{ℤ, pos, ltb_ℤ}
use goupter.Middleware.Gin.{GinCall, header, abort_json, abort_status, set_info, next}
use goupter.Config.Values.{join}
use goupter.Middleware.Auth.{contains}
use goupter.Middleware.Cors.{
  CorsConfig, allow_origin, cors_with_config, preflight, header_if, not_empty, default_cors_config,
}

module _ {I : Type 0} where
  -- The value that a header has after the calls.
  pub value_of : String → List (GinCall I) → Option String
  value_of key [] = none
  value_of key (header k v ∷ calls) = elim (value_of key calls) [
    | some w ↦ some w
    | none ↦ if k == key then some v else none
  ]
  value_of key (abort_json s c m ∷ calls) = value_of key calls
  value_of key (abort_status s ∷ calls) = value_of key calls
  value_of key (set_info i ∷ calls) = value_of key calls
  value_of key (next ∷ calls) = value_of key calls

  value_of-header_if :
      (key k v : String) (b : Bool) (calls : List (GinCall I))
      → (k == key) ≡ false
      → value_of key (header_if b k v ++ calls) ≡ value_of key calls
  unfolding value_of header_if
  value_of-header_if key k v b calls h = ground arith

  value_of-header_if_self :
      (key v : String) (b : Bool) (calls : List (GinCall I))
      → value_of key calls ≡ none
      → value_of key (header_if b key v ++ calls) ≡ (if b then some v else none)
  unfolding value_of header_if
  value_of-header_if_self key v b calls h = ground (arith, string_key.same_iff key key)

value_of-answer :
    (I : Type 0) (rune_text : ℤ → String) (cfg : CorsConfig) (b : Bool)
    → value_of {I = I} "Access-Control-Allow-Origin"
        (if b then preflight rune_text cfg else next ∷ [])
      ≡ none
unfolding value_of preflight
value_of-answer I rune_text cfg true =
    rw
      (
        value_of-header_if {I = I} "Access-Control-Allow-Origin" "Access-Control-Max-Age"
            (rune_text cfg.max_age) (ltb_ℤ (pos 0) cfg.max_age) (abort_status (pos 204) ∷ []) refl,
        value_of,
      )
      refl
value_of-answer I rune_text cfg false = refl

named :
    (cfg : CorsConfig) (origin : String)
    → contains "*" cfg.allow_origins ≡ false
    → (if not_empty (allow_origin cfg origin) then some (allow_origin cfg origin) else none) ≡ (
        if contains origin cfg.allow_origins
        then (if origin == "" then none else some origin)
        else none)
unfolding allow_origin not_empty
named cfg origin h = elim (Bool-cases (contains origin cfg.allow_origins)) [
  | inl c ↦
      rw (h, c, allow_origin)
        (elim (Bool-cases (origin == "")) [ inl e ↦ rw e refl | inr e ↦ rw e refl ])
  | inr c ↦ rw (h, c, allow_origin) refl
]

-- For a list of origins without a star, the response names an origin only if the request has just that
-- origin, it is one of the list, and it is not empty; it names it then, for a preflight request too.
pub cors_with_config-allow_origins :
    (I : Type 0) (rune_text : ℤ → String) (cfg : CorsConfig) (method origin : String)
    → contains "*" cfg.allow_origins ≡ false
    → value_of {I = I} "Access-Control-Allow-Origin" (cors_with_config rune_text cfg method origin)
      ≡ (if contains origin cfg.allow_origins
          then (if origin == "" then none else some origin)
          else none)
unfolding cors_with_config
cors_with_config-allow_origins I rune_text cfg method origin h =
    value_of-header_if_self "Access-Control-Allow-Origin" (allow_origin cfg origin)
      (not_empty (allow_origin cfg origin)) _ rest
    ∙ named cfg origin h
  where
    rest :
        value_of {I = I} "Access-Control-Allow-Origin" (
          header_if cfg.allow_credentials "Access-Control-Allow-Credentials" "true"
          ++ (header_if
                (not_empty (join cfg.expose_headers ", "))
                "Access-Control-Expose-Headers"
                (join cfg.expose_headers ", ")
              ++ (if method == "OPTIONS" then preflight rune_text cfg else next ∷ [])))
        ≡ none
    rest =
        value_of-header_if _ "Access-Control-Allow-Credentials" "true" cfg.allow_credentials _ refl
        ∙ value_of-header_if _ "Access-Control-Expose-Headers" (join cfg.expose_headers ", ")
            (not_empty (join cfg.expose_headers ", ")) _ refl
        ∙ value_of-answer I rune_text cfg (method == "OPTIONS")

-- The default configuration answers a request from any origin with that origin and with leave to send
-- credentials.
pub cors_with_config-default :
    (I : Type 0) (rune_text : ℤ → String) (origin : String)
    → (origin == "") ≡ false
    → let calls = cors_with_config {I = I} rune_text default_cors_config "GET" origin in
      (value_of "Access-Control-Allow-Origin" calls ≡ some origin)
      × (value_of "Access-Control-Allow-Credentials" calls ≡ some "true")
unfolding cors_with_config default_cors_config allow_origin not_empty contains header_if join
    value_of
cors_with_config-default I rune_text origin h = (rw h refl, rw h refl)
