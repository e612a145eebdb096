-- ===== src/Interceptor/HandlerLaws.antt =====
-- Who gets past the authentication of pkg/server/interceptor/interceptor.go.
use Prim.Native.String.{len}
use text.Mathlib.TextPositions.{len-append, slice-append_right}
use goupter.Prelude.{
  append, ℕ, ◌+◌, String, ◌≡◌, refl, ap, sym, ◌∙◌, ◌⊎◌, inl, inr, false, Option, none, some, List,
  ◌∷◌, ltb, arith,
}
use goupter.Interceptor.Types.{Errors, Context, Info, returned, Handler, Results}
use goupter.Interceptor.Handlers.{
  is_skipped, AuthConfig, fill_auth_config, token_after, extract_token, unauthenticated_of,
  validate_token, with_user, auth,
}

module _ (grpc : Errors) where
  open grpc use {E, status, unauthenticated}

  module _ {S Q R : Type 0} (P : Type 0) (results : Results E R) where
    -- A call is let through: its metadata has a token, the validator accepts that token, and the
    -- handler runs on what the validator left, with the user in its context.
    pub record Admitted (given : AuthConfig grpc S) (ctx : Context) (req : Q) (info : Info)
        (h : Handler S Q R P) (s : S) : Type 0 where
      pub token : String
      pub user : String
      pub after : S
      pub validate : Context → String → S → S × (E ⊎ String)
      pub found :
          extract_token grpc ctx
            (fill_auth_config grpc given).metadata_key
            (fill_auth_config grpc given).auth_scheme
          ≡ inr token
      pub validator : given.token_validator ≡ some validate
      pub accepted : validate ctx token s ≡ (after, inr user)
      pub handled :
          auth grpc results given ctx req info h s
          ≡ h (record ctx { user_id = some user }) req after

    -- A call is refused: an error is answered, the same one whatever the handler.
    abbrev pub Refused : AuthConfig grpc S → Context → Q → Info → S → Type 0
    Refused given ctx req info s =
        (err : E) × (after : S) × ((h : Handler S Q R P)
          → auth grpc results given ctx req info h s
            ≡ (after, returned (results.of_err (some err))))

    -- On a method that is not skipped, every call is either admitted, which takes a token that the
    -- configured validator accepts, or refused with an error that does not depend on the handler: the
    -- handler runs for no call without such a token.
    pub auth-Admitted :
        (given : AuthConfig grpc S) (ctx : Context) (req : Q) (info : Info) (h : Handler S Q R P)
        (s : S)
        → is_skipped given.skip_methods info.full_method ≡ false
        → Admitted given ctx req info h s ⊎ Refused given ctx req info s
    unfolding auth validate_token with_user unauthenticated_of fill_auth_config
    auth-Admitted given ctx req info h s shown =
        found (extract_token grpc ctx cfg.metadata_key cfg.auth_scheme) refl
      where
        cfg : AuthConfig grpc S
        cfg = fill_auth_config grpc given

        accepted :
            (token : String) (validate : Context → String → S → S × (E ⊎ String))
            (o : S × (E ⊎ String))
            → extract_token grpc ctx cfg.metadata_key cfg.auth_scheme ≡ inr token
            → given.token_validator ≡ some validate
            → validate ctx token s ≡ o
            → Admitted given ctx req info h s ⊎ Refused given ctx req info s
        accepted token validate (after, inl err) e f g =
            inr (status unauthenticated (grpc.text err), after, λ h. rw (shown, e, f, g) refl)
        accepted token validate (after, inr user) e f g = inl (record {
          token = token;
          user = user;
          after = after;
          validate = validate;
          found = e;
          validator = f;
          accepted = g;
          handled = rw (shown, e, f, g) refl;
        })

        validator :
            (token : String) (v : Option (Context → String → S → S × (E ⊎ String)))
            → extract_token grpc ctx cfg.metadata_key cfg.auth_scheme ≡ inr token
            → given.token_validator ≡ v
            → Admitted given ctx req info h s ⊎ Refused given ctx req info s
        validator token none e f =
            inr
              (status grpc.internal "token validator not configured", s, λ h. rw (shown, e, f) refl)
        validator token (some validate) e f =
            accepted token validate (validate ctx token s) e f refl

        found :
            (x : E ⊎ String)
            → extract_token grpc ctx cfg.metadata_key cfg.auth_scheme ≡ x
            → Admitted given ctx req info h s ⊎ Refused given ctx req info s
        found (inl err) e = inr (err, s, λ h. rw (shown, e) refl)
        found (inr token) e = validator token given.token_validator e refl

  token_after_any_scheme :
      (scheme other token : String)
      → len other ≡ len scheme
      → token_after grpc scheme (append (append other " ") token) ≡ inr token
  unfolding token_after
  token_after_any_scheme scheme other token same =
      rw (enough, width, len-append (append other " ") token)
        (ap inr (slice-append_right (append other " ") token))
    where
      width : len (append scheme " ") ≡ len (append other " ")
      width =
          len-append scheme " "
          ∙ ap (λ (n : ℕ). n + len " ") (sym same)
          ∙ sym (len-append other " ")

      enough : ltb (len (append (append other " ") token)) (len (append scheme " ")) ≡ false
      enough = ground (arith, width, len-append (append other " ") token)

  -- The scheme in the metadata is not compared with the one that is asked for: a value with any other
  -- scheme of the same length gives its token.
  pub extract_token_any_scheme :
      (ctx : Context) (key scheme other token : String) (get : String → List String)
      (values : List String)
      → ctx.metadata ≡ some get
      → get key ≡ append (append other " ") token ∷ values
      → len other ≡ len scheme
      → extract_token grpc ctx key scheme ≡ inr token
  unfolding extract_token
  extract_token_any_scheme ctx key scheme other token get values e f same =
      rw (e, f) (token_after_any_scheme scheme other token same)
