-- ===== src/Auth/Jwt.antt =====
-- pkg/auth/jwt/jwt.go. The library that signs and parses tokens is a parameter. A character of a text
-- stands for a byte.
use Prim.Native.String.{len}
use goupter.Prelude.{
  append, String, Bool, true, false, Option, none, some, List, ◌==◌, ◌⊎◌, inl, inr, ltb, string_key,
  if◌then◌else◌,
}
use goupter.Prelude.Dict.{lookup}
use goupter.Prelude.Int.{ℤ, pos, ◌+ℤ◌, ◌-ℤ◌, leb_ℤ}
use goupter.Cache.Errors.{Error}
use goupter.Cache.Level.{CacheOps}
use goupter.Auth.Claims.{Claims, AuthError, err_token_invalid, err_token_revoked}

-- `jwtClaims`; none is a nil pointer.
pub record JwtClaims (X : Type 0) : Type 0 where
  pub issuer : String
  pub issued_at : Option ℤ
  pub expires_at : Option ℤ
  pub user_id : String
  pub username : String
  pub roles : List String
  pub extra : X

-- What is used of the library.
pub record Library (X : Type 0) : Type 1 where
  pub E : Type 0
  pub Method : Type 0
  pub is_hmac : Method → Bool
  pub hs256 : Method
  -- `ParseWithClaims`: the token, the key for a method, none for an error, and the clock; an error, or
  -- the claims and `Valid`.
  pub parse : String → (Method → Option String) → ℤ → E ⊎ (JwtClaims X × Bool)
  -- `NewWithClaims` and `SignedString`
  pub sign : Method → JwtClaims X → String → E ⊎ String
  -- `NewNumericDate`
  pub numeric_date : ℤ → ℤ

pub record Config : Type 0 where
  pub secret_key : String
  pub issuer : String
  pub access_token_ttl : ℤ
  pub refresh_token_ttl : ℤ
  pub blacklist_enabled : Bool

abbrev pub default_secret_key : String
default_secret_key = "change-me-in-production"

unfoldable pub default_config : Config
default_config = record {
  secret_key = default_secret_key;
  issuer = "goupter";
  access_token_ttl = pos 7200000000000;
  refresh_token_ttl = pos 604800000000000;
  blacklist_enabled = false;
}

-- A value of the configuration map.
pub data AnyValue : Type 0 where
  text : String → AnyValue
  flag : Bool → AnyValue
  other : AnyValue

-- `config[key].(string)` and `config[key].(bool)`, or what is there already.
unfoldable pub text_or : String → Option AnyValue → String
text_or old none = old
text_or old (some (text v)) = v
text_or old (some (flag b)) = old
text_or old (some other) = old

unfoldable pub flag_or : Bool → Option AnyValue → Bool
flag_or old none = old
flag_or old (some (flag b)) = b
flag_or old (some (text v)) = old
flag_or old (some other) = old

unfoldable pub duration_or : (String → Option ℤ) → ℤ → Option AnyValue → ℤ
duration_or parse_duration old none = old
duration_or parse_duration old (some (text v)) = elim (parse_duration v) [ none ↦ old | some d ↦ d ]
duration_or parse_duration old (some (flag b)) = old
duration_or parse_duration old (some other) = old

-- The configuration of `Init` before its checks.
unfoldable pub read_config : (String → Option ℤ) → List (String × AnyValue) → Config
unfolding text_or flag_or duration_or default_config
read_config parse_duration config =
    let d = default_config in
    record {
      secret_key = text_or d.secret_key (lookup "secret_key" config);
      issuer = text_or d.issuer (lookup "issuer" config);
      access_token_ttl =
          duration_or parse_duration d.access_token_ttl (lookup "access_token_ttl" config);
      refresh_token_ttl =
          duration_or parse_duration d.refresh_token_ttl (lookup "refresh_token_ttl" config);
      blacklist_enabled = flag_or d.blacklist_enabled (lookup "blacklist_enabled" config);
    }

-- `blacklist` is none for nil.
pub record Authenticator (B : Type 0) : Type 0 where
  pub config : Config
  pub blacklist : Option B

-- `NewAuthenticator` with the option `WithBlacklist`, or without options.
unfoldable pub new_authenticator : {B : Type 0} → Config → Option B → Authenticator B
new_authenticator config blacklist = record { config = config; blacklist = blacklist }

pub record Plugin (B : Type 0) : Type 0 where
  pub config : Option Config
  pub authenticator : Option (Authenticator B)

-- The plugin after `Init`, and the text of its error.
unfoldable pub init :
    {B : Type 0}
    → (String → Option ℤ)
    → List (String × AnyValue)
    → Plugin B
    → Plugin B × Option String
unfolding read_config new_authenticator
init parse_duration config p =
    let cfg = read_config parse_duration config in
    if cfg.secret_key == default_secret_key
    then (
      record p { config = some cfg },
      some "jwt: secret_key must be configured, using default key is not allowed",
    )
    else if ltb (len cfg.secret_key) 32
    then (record p { config = some cfg }, some "jwt: secret_key must be at least 32 characters")
    else (record { config = some cfg; authenticator = some (new_authenticator cfg none) }, none)

-- `nil_pointer` is the panic on a token without one of its times.
pub data Answer (X : Type 0) : Type 0 where
  claims : Claims X → Answer X
  failed : AuthError → Answer X
  nil_pointer : Answer X

abbrev pub blacklist_key : String → String
blacklist_key token = append "jwt:blacklist:" token

module _ {X : Type 0} (jwt : Library X) where
  open jwt use {E, Method, is_hmac, hs256, parse, sign, numeric_date}

  unfoldable pub claims_of : JwtClaims X → Answer X
  claims_of c = elim c.issued_at [
    | none ↦ nil_pointer
    | some issued ↦ elim c.expires_at [
      | none ↦ nil_pointer
      | some expires ↦ Answer.claims (record {
        user_id = c.user_id;
        username = c.username;
        roles = c.roles;
        extra = c.extra;
        issued_at = issued;
        expires_at = expires;
      })
    ]
  ]

  -- The key for a method, which `Authenticate` gives for one of the family HMAC only.
  unfoldable pub hmac_key : String → Method → Option String
  hmac_key secret method = if is_hmac method then some secret else none

  unfoldable pub generate_token : {B : Type 0} → Authenticator B → Claims X → ℤ → E ⊎ String
  generate_token a c now =
      sign hs256
        (record {
          issuer = a.config.issuer;
          issued_at = some (numeric_date now);
          expires_at = some (numeric_date (now +ℤ a.config.access_token_ttl));
          user_id = c.user_id;
          username = c.username;
          roles = c.roles;
          extra = c.extra;
        })
        a.config.secret_key

  refresh_of :
      {B : Type 0} → Authenticator B → ℤ → E ⊎ (JwtClaims X × Bool) → (AuthError ⊎ E) ⊎ String
  unfolding generate_token
  refresh_of a now (inl e) = inl (inl err_token_invalid)
  refresh_of a now (inr (c, false)) = inl (inl err_token_invalid)
  refresh_of a now (inr (c, true)) =
      elim (generate_token a
        (record {
          user_id = c.user_id;
          username = c.username;
          roles = c.roles;
          extra = c.extra;
          issued_at = pos 0;
          expires_at = pos 0;
        })
        now) [ inl e ↦ inl (inr e) | inr token ↦ inr token ]

  -- The clocks are those of the parse and of the new token.
  unfoldable pub refresh_token :
      {B : Type 0} → Authenticator B → String → ℤ → ℤ → (AuthError ⊎ E) ⊎ String
  unfolding refresh_of
  refresh_token a token now later =
      refresh_of a later (parse token (λ method. some a.config.secret_key) now)

  module _ {V S : Type 0} where
    -- `a.config.BlacklistEnabled && a.blacklist != nil`, and then the cache.
    unfoldable pub active : Authenticator (CacheOps V S) → Option (CacheOps V S)
    active a = if a.config.blacklist_enabled then a.blacklist else none

    -- After the parse; the error of `Exists` is dropped.
    unfoldable pub authenticate_parsed :
        Authenticator (CacheOps V S) → String → E ⊎ (JwtClaims X × Bool) → S → S × Answer X
    unfolding active claims_of
    authenticate_parsed a token (inl e) s = (s, failed err_token_invalid)
    authenticate_parsed a token (inr (c, false)) s = (s, failed err_token_invalid)
    authenticate_parsed a token (inr (c, true)) s = elim (active a) [
      | none ↦ (s, claims_of c)
      | some ops ↦
          let (s', exists, e) = ops.exists s (blacklist_key token) in
          (s', if exists then failed err_token_revoked else claims_of c)
    ]

    unfoldable pub authenticate : Authenticator (CacheOps V S) → String → ℤ → S → S × Answer X
    unfolding authenticate_parsed hmac_key
    authenticate a token now s =
        authenticate_parsed a token (parse token (hmac_key a.config.secret_key) now) s

    -- None is the panic on a token that does not expire; `true_value` is `true` as a value of the cache.
    unfoldable pub revoke_parsed :
        V
        → CacheOps V S
        → String
        → ℤ
        → E ⊎ (JwtClaims X × Bool)
        → S
        → Option (S × Option (E ⊎ Error))
    revoke_parsed true_value ops token now (inl e) s = some (s, some (inl e))
    revoke_parsed true_value ops token now (inr (c, valid)) s = elim c.expires_at [
      | none ↦ none
      | some expires ↦
          if leb_ℤ (expires -ℤ now) (pos 0)
          then some (s, none)
          else (let (s', e) = ops.set s (blacklist_key token) true_value (expires -ℤ now) in
              some (s', elim e [ none ↦ none | some err ↦ some (inr err) ]))
    ]

    -- The clocks are those of the parse and of `time.Until`.
    unfoldable pub revoke_token :
        V → Authenticator (CacheOps V S) → String → ℤ → ℤ → S → Option (S × Option (E ⊎ Error))
    unfolding revoke_parsed active
    revoke_token true_value a token now later s = elim (active a) [
      | none ↦ some (s, none)
      | some ops ↦
          revoke_parsed true_value ops token later
            (parse token (λ method. some a.config.secret_key) now) s
    ]
