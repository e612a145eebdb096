-- ===== src/Middleware/Auth.antt =====
-- pkg/server/middleware/auth.go. A character of a text stands for a byte.
use Prim.Native.String.{len, slice}
use goupter.Prelude.{
  append, String, Bool, true, false, not, Option, none, some, List, [], ◌∷◌, ◌==◌, string_key, ltb,
  if◌then◌else◌,
}
use goupter.Prelude.Int.{ℤ, pos, ltb_ℤ}
use goupter.Middleware.Gin.{GinCall, header, abort_json, set_info, next}

-- `expires_at` is none for the zero time; `X` is the type of the extra fields.
pub record AuthInfo (X : Type 0) : Type 0 where
  pub user_id : String
  pub username : String
  pub roles : List String
  pub scopes : List String
  pub extra : X
  pub expires_at : Option ℤ

unfoldable pub contains : String → List String → Bool
contains text [] = false
contains text (t ∷ texts) = if t == text then true else contains text texts

-- The loops of `HasAllRoles` and `HasAnyRole`, over what is asked for.
unfoldable pub contains_all : List String → List String → Bool
unfolding contains
contains_all [] texts = true
contains_all (t ∷ ts) texts = if not (contains t texts) then false else contains_all ts texts

unfoldable pub contains_any : List String → List String → Bool
unfolding contains
contains_any [] texts = false
contains_any (t ∷ ts) texts = if contains t texts then true else contains_any ts texts

pub data AuthFailure (E : Type 0) : Type 0 where
  missing_token : AuthFailure E
  invalid_token : AuthFailure E
  token_expired : AuthFailure E
  rejected : E → AuthFailure E

unfoldable pub failure_text : {E : Type 0} → (E → String) → AuthFailure E → String
failure_text error_text missing_token = "missing authentication token"
failure_text error_text invalid_token = "invalid authentication token"
failure_text error_text token_expired = "token has expired"
failure_text error_text (rejected e) = error_text e

-- `strings.HasPrefix` and `strings.TrimPrefix`
unfoldable pub begins_with : String → String → Bool
begins_with prefix s = if ltb (len s) (len prefix) then false else slice s 0 (len prefix) == prefix

unfoldable pub token_of : String → String
token_of auth = slice auth (len "Bearer ") (len auth)

-- `validate` gives the information, none for a nil pointer, and the error; `error_handler` is none for
-- nil, and gives the calls that it makes.
pub record BearerAuthConfig (X E S : Type 0) : Type 0 where
  pub validate : String → S → S × Option (AuthInfo X) × Option E
  pub realm : String
  pub skip_paths : List String
  pub error_handler : Option (AuthFailure E → List (GinCall (AuthInfo X)))

module _ {X : Type 0} where
  unfoldable pub has_role : AuthInfo X → String → Bool
  unfolding contains
  has_role a role = contains role a.roles

  unfoldable pub has_any_role : AuthInfo X → List String → Bool
  unfolding contains_any
  has_any_role a roles = contains_any roles a.roles

  unfoldable pub has_all_roles : AuthInfo X → List String → Bool
  unfolding contains_all
  has_all_roles a roles = contains_all roles a.roles

  unfoldable pub has_scope : AuthInfo X → String → Bool
  unfolding contains
  has_scope a scope = contains scope a.scopes

  unfoldable pub is_expired : AuthInfo X → ℤ → Bool
  is_expired a now = elim a.expires_at [ none ↦ false | some t ↦ ltb_ℤ t now ]

  module _ {E S : Type 0} (error_text : E → String) where
    unfoldable pub handle_auth_error :
        BearerAuthConfig X E S → AuthFailure E → List (GinCall (AuthInfo X))
    unfolding failure_text
    handle_auth_error cfg err = elim cfg.error_handler [
      | some handler ↦ handler err
      | none ↦
          header "WWW-Authenticate" (
            append "Bearer realm=\""
              (append (if cfg.realm == "" then "Authorization Required" else cfg.realm) "\""))
          ∷ abort_json (pos 401) (pos 401) (failure_text error_text err)
          ∷ []
    ]

    -- After `Validate`; none is the panic on a nil pointer.
    unfoldable pub after_validate :
        BearerAuthConfig X E S
        → ℤ
        → S × Option (AuthInfo X) × Option E
        → S × Option (List (GinCall (AuthInfo X)))
    unfolding handle_auth_error is_expired
    after_validate cfg now (s, info, some e) = (s, some (handle_auth_error cfg (rejected e)))
    after_validate cfg now (s, none, none) = (s, none)
    after_validate cfg now (s, some info, none) = (
      s,
      some (
          if is_expired info now
          then handle_auth_error cfg token_expired
          else set_info info ∷ next ∷ []),
    )

    -- `auth` is the header `Authorization`.
    unfoldable pub bearer_auth_with_config :
        BearerAuthConfig X E S → String → String → ℤ → S → S × Option (List (GinCall (AuthInfo X)))
    unfolding contains begins_with token_of after_validate
    bearer_auth_with_config cfg path auth now s =
        if contains path cfg.skip_paths
        then (s, some (next ∷ []))
        else if auth == ""
        then (s, some (handle_auth_error cfg missing_token))
        else if not (begins_with "Bearer " auth)
        then (s, some (handle_auth_error cfg invalid_token))
        else if token_of auth == ""
        then (s, some (handle_auth_error cfg invalid_token))
        else after_validate cfg now (cfg.validate (token_of auth) s)

  unfoldable pub forbidden : String → List (GinCall (AuthInfo X))
  forbidden message = abort_json (pos 403) (pos 403) message ∷ []

  unfoldable pub unauthorized : List (GinCall (AuthInfo X))
  unauthorized = abort_json (pos 401) (pos 401) "authentication required" ∷ []

  -- `info` is what `GetAuthInfo` finds.
  unfoldable pub require_roles : List String → Option (AuthInfo X) → List (GinCall (AuthInfo X))
  unfolding unauthorized forbidden has_all_roles
  require_roles roles none = unauthorized
  require_roles roles (some info) =
      if not (has_all_roles info roles) then forbidden "insufficient permissions" else next ∷ []

  unfoldable pub require_any_role : List String → Option (AuthInfo X) → List (GinCall (AuthInfo X))
  unfolding unauthorized forbidden has_any_role
  require_any_role roles none = unauthorized
  require_any_role roles (some info) =
      if not (has_any_role info roles) then forbidden "insufficient permissions" else next ∷ []

  -- The loop over the scopes.
  unfoldable pub check_scopes : List String → AuthInfo X → List (GinCall (AuthInfo X))
  unfolding forbidden has_scope
  check_scopes [] info = next ∷ []
  check_scopes (scope ∷ scopes) info =
      if not (has_scope info scope)
      then forbidden "insufficient scope"
      else check_scopes scopes info

  unfoldable pub require_scopes : List String → Option (AuthInfo X) → List (GinCall (AuthInfo X))
  unfolding unauthorized check_scopes
  require_scopes scopes none = unauthorized
  require_scopes scopes (some info) = check_scopes scopes info
