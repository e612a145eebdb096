-- ===== src/Auth/JwtLaws.antt =====
-- What the authenticator of pkg/auth/jwt/jwt.go accepts and refuses.
use Prim.Native.String.{len}
use goupter.Prelude.{
  ℕ, String, ◌≡◌, refl, ◌≤◌, Bool, true, false, Option, none, some, List, inr, string_key, All,
  arith,
}
use goupter.Prelude.Int.{ℤ, pos, ◌+ℤ◌, ◌-ℤ◌, ◌≤ℤ◌, ◌<ℤ◌, leb_ℤ, int_laws, lt→leb_ℤ}
use goupter.Cache.Json.{Json, Marshalled}
use goupter.Cache.Level.{CacheOps}
use goupter.Cache.Memory
use goupter.Cache.Memory.{MemoryCache, put, expiry, live}
use goupter.Cache.Memory.Reads.{live-put}
use goupter.Cache.Memory.AsLevel.{MemoryLevel, memory_ops}
use goupter.Auth.Claims.{Claims, err_token_revoked}
use goupter.Auth.Jwt.{
  Library, JwtClaims, Config, AnyValue, Authenticator, Plugin, Answer, failed, blacklist_key,
  hmac_key, generate_token, claims_of, active, authenticate_parsed, authenticate, revoke_parsed,
  revoke_token, read_config, new_authenticator, init,
}

-- What the library promises of a token that it signed, if the function gives the key: before it
-- expires it parses to its claims, where JSON keeps all of them. `IsText` says which texts it keeps
-- (those in UTF-8), `IsTime` which times (whole seconds in the range of a float64), and `Encodes` which
-- extra fields.
pub record IsLibrary {X : Type 0} (jwt : Library X) : Type 1 where
  pub IsText : String → Type 0
  pub IsTime : ℤ → Type 0
  pub Encodes : X → Type 0
  pub hs256_hmac : jwt.is_hmac jwt.hs256 ≡ true
  pub parse-sign :
      (c : JwtClaims X) (key token : String) (keys : jwt.Method → Option String)
      (now issued expires : ℤ)
      → IsText c.issuer
      → IsText c.user_id
      → IsText c.username
      → All IsText c.roles
      → Encodes c.extra
      → IsTime issued
      → IsTime expires
      → jwt.sign jwt.hs256 c key ≡ inr token
      → keys jwt.hs256 ≡ some key
      → c.issued_at ≡ some issued
      → c.expires_at ≡ some expires
      → now <ℤ expires
      → jwt.parse token keys now ≡ inr (c, true)

module _ {X : Type 0} (jwt : Library X) where
  open jwt use {numeric_date, parse}

  -- The token is in the blacklist, where there is one.
  abbrev pub is_listed : {V S : Type 0} → Authenticator (CacheOps V S) → String → S → Bool
  is_listed a token s = elim (active jwt a) [
    | none ↦ false
    | some ops ↦ (ops.exists s (blacklist_key token)).1
  ]

  unlisted :
      {V S : Type 0} (a : Authenticator (CacheOps V S)) (token : String) (c : JwtClaims X) (s : S)
      → is_listed a token s ≡ false
      → (authenticate_parsed jwt a token (inr (c, true)) s).1 ≡ claims_of jwt c
  unfolding authenticate_parsed
  unlisted a token c s h = ground arith

  -- A token that was generated is accepted before it expires, unless it is in the blacklist, and gives
  -- back the user, the name, the roles and the extra fields that it was generated for; its
  -- times are those of the generation, as the library rounds them. The texts, the extra fields and
  -- the rounded times are such as JSON keeps.
  pub authenticate-generate_token :
      {V S : Type 0} (lib : IsLibrary jwt) (a : Authenticator (CacheOps V S)) (c : Claims X)
      (now later : ℤ) (token : String) (s : S)
      → lib.IsText a.config.issuer
      → lib.IsText c.user_id
      → lib.IsText c.username
      → All lib.IsText c.roles
      → lib.Encodes c.extra
      → lib.IsTime (numeric_date now)
      → lib.IsTime (numeric_date (now +ℤ a.config.access_token_ttl))
      → generate_token jwt a c now ≡ inr token
      → later <ℤ numeric_date (now +ℤ a.config.access_token_ttl)
      → is_listed a token s ≡ false
      → (authenticate jwt a token later s).1
        ≡ Answer.claims (record c {
          issued_at = numeric_date now;
          expires_at = numeric_date (now +ℤ a.config.access_token_ttl);
        })
  unfolding authenticate generate_token claims_of hmac_key
  authenticate-generate_token lib a c now later token s issuer id name roles encodes issued until
        signed before clear =
      rw
        (lib.parse-sign minted a.config.secret_key token _ later _ _ issuer id name roles encodes
          issued until signed given refl refl before)
        (unlisted a token minted s clear)
    where
      given : hmac_key jwt a.config.secret_key jwt.hs256 ≡ some a.config.secret_key
      given = rw lib.hs256_hmac refl

      minted : JwtClaims X
      minted = record {
        issuer = a.config.issuer;
        issued_at = some (numeric_date now);
        expires_at = some (numeric_date (now +ℤ a.config.access_token_ttl));
        user_id = c.user_id;
        username = c.username;
        roles = c.roles;
        extra = c.extra;
      }

  init_made :
      {B : Type 0} (parse_duration : String → Option ℤ) (config : List (String × AnyValue))
      (p p' : Plugin B)
      → init parse_duration config p ≡ (p', none)
      → (p'.authenticator ≡ some (new_authenticator (read_config parse_duration config) none))
        × (32 ≤ len (read_config parse_duration config).secret_key)
  unfolding init
  init_made parse_duration config p p' h = ground arith

  -- After `Init` succeeds, the secret has at least 32 bytes; but the authenticator has no blacklist,
  -- whatever the configuration says, and revoking a token with it does nothing.
  pub init_never_revokes :
      {V S : Type 0} (parse_duration : String → Option ℤ) (config : List (String × AnyValue))
      (p p' : Plugin (CacheOps V S)) (true_value : V) (token : String) (now later : ℤ) (s : S)
      → init parse_duration config p ≡ (p', none)
      → (a : Authenticator (CacheOps V S)) × (p'.authenticator ≡ some a)
        × (32 ≤ len a.config.secret_key)
        × (revoke_token jwt true_value a token now later s ≡ some (s, none))
  unfolding init revoke_token active new_authenticator
  init_never_revokes parse_duration config p p' true_value token now later s h =
      let (made, long) = init_made parse_duration config p p' h in
      (new_authenticator (read_config parse_duration config) none, made, long, nothing)
    where
      cfg : Config
      cfg = read_config parse_duration config

      nothing :
          revoke_token jwt true_value (new_authenticator cfg none) token now later s
          ≡ some (s, none)
      nothing = ground arith

  module _ (json : Json) where
    open json use {Value, marshal}

    left_positive : (next expires : ℤ) → next <ℤ expires → pos 0 <ℤ expires -ℤ next
    left_positive next expires h = omega (arith, int_laws)

    still_later :
        (t next expires later : ℤ) → next ≤ℤ t → later ≤ℤ expires → later ≤ℤ t +ℤ (expires -ℤ next)
    still_later t next expires later h k = omega (arith, int_laws)

    listed_until :
        (c : MemoryCache) (key : String) (bytes : List ℕ) (t next expires later : ℤ)
        → next <ℤ expires
        → next ≤ℤ t
        → later ≤ℤ expires
        → Memory.exists (put c key bytes (expiry (expires -ℤ next) t)) key later ≡ true
    unfolding Memory.exists expiry
    listed_until c key bytes t next expires later h k l = ground (
      arith,
      string_key.same_iff key key,
      live-put c key key bytes (expiry (expires -ℤ next) t) later,
      left_positive next expires h,
      still_later t next expires later k l,
    )

    -- With a memory cache as its blacklist: revoking a token that has not expired succeeds, and from
    -- then on the token is refused as revoked, as long as it would be valid otherwise.
    pub authenticate-revoke_token :
        (a : Authenticator (CacheOps Value MemoryLevel)) (v : Value) (bytes : List ℕ)
        (token : String) (c c' : JwtClaims X) (valid : Bool) (now next expires later : ℤ)
        (s : MemoryLevel)
        → active jwt a ≡ some (memory_ops json)
        → marshal v ≡ Marshalled.ok bytes
        → parse token (λ method. some a.config.secret_key) now ≡ inr (c, valid)
        → c.expires_at ≡ some expires
        → next <ℤ expires
        → next ≤ℤ s.now
        → parse token (hmac_key jwt a.config.secret_key) later ≡ inr (c', true)
        → later ≤ℤ expires
        → (s' : MemoryLevel) × (revoke_token jwt v a token now next s ≡ some (s', none))
          × ((authenticate jwt a token later (record s' { now = later })).1
              ≡ failed err_token_revoked)
    unfolding authenticate authenticate_parsed revoke_token revoke_parsed Memory.set Memory.exists
    authenticate-revoke_token a v bytes token c c' valid now next expires later s on m parsed exp
          left clock again soon =
        (
          after,
          rw (on, parsed, exp, future, m, revoke_token, revoke_parsed, Memory.set) refl,
          rw
              (
                again,
                on,
                listed_until s.cache (blacklist_key token) bytes s.now next expires later left clock
                    soon,
                authenticate,
                authenticate_parsed,
              )
              refl,
        )
      where
        after : MemoryLevel
        after = record s {
          cache = put s.cache (blacklist_key token) bytes (expiry (expires -ℤ next) s.now);
        }

        future : leb_ℤ (expires -ℤ next) (pos 0) ≡ false
        future = lt→leb_ℤ (expires -ℤ next) (pos 0) (left_positive next expires left)
