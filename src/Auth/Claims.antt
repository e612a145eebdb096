-- ===== src/Auth/Claims.antt =====
-- `Claims` and the predefined errors of pkg/auth/auth.go. `X` is the type of the extra fields; times
-- are nanoseconds from some origin.
use goupter.Prelude.{String, Bool, true, false, List, [], ◌∷◌, ◌==◌, string_key, if◌then◌else◌}
use goupter.Prelude.Int.{ℤ, pos, ltb_ℤ}

pub record Claims (X : Type 0) : Type 0 where
  pub user_id : String
  pub username : String
  pub roles : List String
  pub extra : X
  pub issued_at : ℤ
  pub expires_at : ℤ

unfoldable pub is_expired : {X : Type 0} → Claims X → ℤ → Bool
is_expired c now = ltb_ℤ c.expires_at now

unfoldable pub has_text : String → List String → Bool
has_text role [] = false
has_text role (r ∷ roles) = if r == role then true else has_text role roles

unfoldable pub has_role : {X : Type 0} → Claims X → String → Bool
unfolding has_text
has_role c role = has_text role c.roles

pub record AuthError : Type 0 where
  pub code : ℤ
  pub message : String

abbrev pub err_token_invalid : AuthError
err_token_invalid = record { code = pos 10001; message = "token invalid" }

abbrev pub err_token_expired : AuthError
err_token_expired = record { code = pos 10002; message = "token expired" }

abbrev pub err_token_revoked : AuthError
err_token_revoked = record { code = pos 10003; message = "token revoked" }
