-- ===== src/Middleware/AuthLaws.antt =====
-- Who gets past pkg/server/middleware/auth.go.
use goupter.Prelude.{
  String, ◌≡◌, ◌≢◌, refl, true, false, Option, none, some, List, [], ◌∷◌, ◌==◌, ◌⊎◌, inl, inr, ◌↔◌,
  string_key, All, arith, Bool-cases,
}
use goupter.Prelude.Int.{ℤ}
use goupter.Middleware.Gin.{GinCall, goes_on, set_info, next}
use goupter.Middleware.Auth.{
  AuthInfo, AuthFailure, missing_token, invalid_token, token_expired, rejected, BearerAuthConfig,
  contains, contains_all, contains_any, begins_with, token_of, is_expired, handle_auth_error,
  after_validate, bearer_auth_with_config, require_roles, require_any_role, require_scopes,
  check_scopes, has_all_roles, has_any_role, has_scope, forbidden, unauthorized,
}

module _ {X E S : Type 0} (error_text : E → String) where
  -- A request is let through with the information that the validator gave for its token.
  pub record Accepted (cfg : BearerAuthConfig X E S) (auth : String) (now : ℤ) (s : S)
      (calls : List (GinCall (AuthInfo X))) : Type 0 where
    pub info : AuthInfo X
    pub prefixed : begins_with "Bearer " auth ≡ true
    pub token : token_of auth ≢ ""
    pub after : S
    pub validated : cfg.validate (token_of auth) s ≡ (after, some info, none)
    pub current : is_expired info now ≡ false
    pub called : calls ≡ set_info info ∷ next ∷ []

  refused_stops :
      (cfg : BearerAuthConfig X E S) (err : AuthFailure E)
      → cfg.error_handler ≡ none
      → goes_on (handle_auth_error error_text cfg err) ≡ false
  unfolding goes_on handle_auth_error
  refused_stops cfg err h = ground arith

  let_through :
      (cfg : BearerAuthConfig X E S) (auth : String) (now : ℤ) (s : S)
      (o : S × Option (AuthInfo X) × Option E) (calls : List (GinCall (AuthInfo X)))
      → cfg.error_handler ≡ none
      → begins_with "Bearer " auth ≡ true
      → token_of auth ≢ ""
      → cfg.validate (token_of auth) s ≡ o
      → (after_validate error_text cfg now o).1 ≡ some calls
      → goes_on calls ≡ true
      → Accepted cfg auth now s calls
  unfolding after_validate
  let_through cfg auth now s (s', info, some err) calls plain p t v e on =
      ground (arith, refused_stops cfg (rejected err) plain)
  let_through cfg auth now s (s', none, none) calls plain p t v e on = ground arith
  let_through cfg auth now s (s', some info, none) calls plain p t v e on =
      elim (Bool-cases (is_expired info now)) [
        | inl x ↦ ground (arith, x, refused_stops cfg token_expired plain)
        | inr x ↦ record {
          info = info;
          prefixed = p;
          token = t;
          after = s';
          validated = v;
          current = x;
          called = ground (arith, e, x);
        }
      ]

  -- Without an error handler of the configuration's own, on a path that is not skipped: if the rest of the
  -- chain runs, the header begins with the scheme, has a token, and the validator accepted that
  -- token without an error and with information that has not expired, which is stored first.
  pub bearer_auth_with_config-Accepted :
      (cfg : BearerAuthConfig X E S) (path auth : String) (now : ℤ) (s : S)
      (calls : List (GinCall (AuthInfo X)))
      → cfg.error_handler ≡ none
      → contains path cfg.skip_paths ≡ false
      → (bearer_auth_with_config error_text cfg path auth now s).1 ≡ some calls
      → goes_on calls ≡ true
      → Accepted cfg auth now s calls
  unfolding bearer_auth_with_config after_validate
  bearer_auth_with_config-Accepted cfg path auth now s calls plain shown e on =
      elim (Bool-cases (auth == "")) [
        | inl x ↦ ground (arith, x, refused_stops cfg missing_token plain)
        | inr x ↦ elim (Bool-cases (begins_with "Bearer " auth)) [
          | inr p ↦ ground (arith, x, p, refused_stops cfg invalid_token plain)
          | inl p ↦ elim (Bool-cases (token_of auth == "")) [
            | inl t ↦ ground (arith, x, p, t, refused_stops cfg invalid_token plain)
            | inr t ↦
                let_through cfg auth now s (cfg.validate (token_of auth) s) calls plain p
                  (ground (arith, string_key.same_iff (token_of auth) "")) refl
                  (rw (shown, x, p, t) at e) on
          ]
        ]
      ]

-- The text is one of the list.
abbrev pub Among : String → List String → Type 0
Among text [] = ⊥
Among text (t ∷ ts) = (t ≡ text) ⊎ Among text ts

contains-Among :
    (text : String) (texts : List String) → (contains text texts ≡ true) ↔ Among text texts
unfolding contains
contains-Among text [] = ground arith
contains-Among text (t ∷ ts) = ground (arith, string_key.same_iff t text, contains-Among text ts)

-- The property holds of one of the list.
abbrev pub SomeOf : (String → Type 0) → List String → Type 0
SomeOf P [] = ⊥
SomeOf P (t ∷ ts) = P t ⊎ SomeOf P ts

contains_any-SomeOf :
    (ts texts : List String) → (contains_any ts texts ≡ true) ↔ SomeOf (λ t. Among t texts) ts
unfolding contains_any
contains_any-SomeOf [] texts = ground arith
contains_any-SomeOf (t ∷ ts) texts =
    ground (arith, contains-Among t texts, contains_any-SomeOf ts texts)

contains_all-All :
    (ts texts : List String) → (contains_all ts texts ≡ true) ↔ All (λ t. Among t texts) ts
unfolding contains_all
contains_all-All [] texts = (λ h. tt, λ h. refl)
contains_all-All (t ∷ ts) texts = ground (arith, contains-Among t texts, contains_all-All ts texts)

module _ {X : Type 0} where
  -- The roles of the request are such, where there is a request's information.
  abbrev pub Holds : (AuthInfo X → Type 0) → Option (AuthInfo X) → Type 0
  Holds P none = ⊥
  Holds P (some info) = P info

  goes_on-check_scopes :
      (scopes : List String) (info : AuthInfo X)
      → (goes_on (check_scopes scopes info) ≡ true) ↔ All (λ t. Among t info.scopes) scopes
  unfolding goes_on check_scopes forbidden has_scope
  goes_on-check_scopes [] info = (λ h. tt, λ h. refl)
  goes_on-check_scopes (t ∷ scopes) info =
      ground (arith, contains-Among t info.scopes, goes_on-check_scopes scopes info)

  -- A middleware that asks for roles, all of them or one of them, or for scopes, lets the chain go on
  -- exactly if there is a request's information and it has all the roles, one of the roles, or all
  -- the scopes that are asked for.
  pub goes_on-require_roles :
      (texts : List String) (info : Option (AuthInfo X))
      → ((goes_on (require_roles texts info) ≡ true)
          ↔ Holds (λ i. All (λ t. Among t i.roles) texts) info)
        × ((goes_on (require_any_role texts info) ≡ true)
            ↔ Holds (λ i. SomeOf (λ t. Among t i.roles) texts) info)
        × ((goes_on (require_scopes texts info) ≡ true)
            ↔ Holds (λ i. All (λ t. Among t i.scopes) texts) info)
  unfolding goes_on require_roles require_any_role require_scopes unauthorized forbidden
      has_all_roles has_any_role
  goes_on-require_roles texts none = ground arith
  goes_on-require_roles texts (some info) = (
    ground (arith, contains_all-All texts info.roles),
    ground (arith, contains_any-SomeOf texts info.roles),
    goes_on-check_scopes texts info,
  )
