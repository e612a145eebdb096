-- ===== src/Examples/Auth.antt =====
-- Examples about pkg/auth/jwt/jwt.go, with a library that signs one set of claims only.
use Prim.Native.String.{len}
use mathlib.Core.Path.{subst}
use goupter.Prelude.{
  ◌/◌, ◌*◌, String, ◌≡◌, refl, sym, ap, ◌∙◌, ◌≤◌, Bool, true, false, ◌&&◌, Option, none, some, List,
  [], ◌∷◌, ◌==◌, ◌⊎◌, inl, inr, string_key, if◌then◌else◌, arith,
}
use goupter.Prelude.Int.{negsuc, ℤ, pos, ◌+ℤ◌, ◌<ℤ◌, ltb_ℤ, lt→ltb_ℤ, int_key, int_eqb_iff}
use goupter.Cache.Level.{CacheOps}
use goupter.Cache.Memory
use goupter.Cache.Memory.{new_memory_cache, live}
use goupter.Prelude.Dict.{lookup}
use goupter.Cache.Memory.AsLevel.{MemoryLevel, memory_ops}
use goupter.Auth.Claims.{Claims, err_token_revoked}
use goupter.Auth.Jwt.{
  Library, JwtClaims, Config, AnyValue, text, flag, Authenticator, Plugin, Answer, failed,
  generate_token, authenticate, revoke_token, init, active, hmac_key, read_config, default_config,
  text_or, flag_or,
}
use goupter.Auth.JwtLaws.{
  IsLibrary, authenticate-generate_token, init_never_revokes, authenticate-revoke_token,
}
use goupter.Examples.CacheData.{codec}

abbrev secret : String
secret = "0123456789abcdef0123456789abcdef"

abbrev minted : JwtClaims Unit
minted = record {
  issuer = "shop";
  issued_at = some (pos 1000000000);
  expires_at = some (pos 11000000000);
  user_id = "7";
  username = "ann";
  roles = [];
  extra = tt;
}

abbrev is_time : Option ℤ → ℤ → Bool
is_time none t = false
is_time (some u) t = u == t

abbrev no_roles : List String → Bool
no_roles [] = true
no_roles (r ∷ roles) = false

abbrev is_minted : JwtClaims Unit → Bool
is_minted c =
    (c.issuer == "shop")
    && ((c.user_id == "7")
        && ((c.username == "ann")
            && (no_roles c.roles
                && (is_time c.issued_at (pos 1000000000)
                    && is_time c.expires_at (pos 11000000000)))))

no_roles_lem : (roles : List String) → no_roles roles ≡ true → roles ≡ []
no_roles_lem roles h = ground arith

is_time_lem : (t : Option ℤ) (n : ℤ) → is_time t n ≡ true → t ≡ some n
is_time_lem none n h = ground arith
is_time_lem (some u) n h = ground (arith, int_eqb_iff u n)

is_minted_lem : (c : JwtClaims Unit) → is_minted c ≡ true → c ≡ minted
is_minted_lem c h = ground (
  arith,
  string_key.same_iff c.issuer "shop",
  string_key.same_iff c.user_id "7",
  string_key.same_iff c.username "ann",
  no_roles_lem c.roles,
  is_time_lem c.issued_at (pos 1000000000),
  is_time_lem c.expires_at (pos 11000000000),
)

abbrev parse_with : Option String → ℤ → String ⊎ (JwtClaims Unit × Bool)
parse_with none now = inl "no key"
parse_with (some key) now =
    if (key == secret) && ltb_ℤ now (pos 11000000000) then inr (minted, true) else inl "invalid"

-- Whole seconds, in nanoseconds.
abbrev seconds : ℤ → ℤ
seconds (pos n) = pos (n / 1000000000 * 1000000000)
seconds (negsuc n) = negsuc n

-- The one token is "t".
abbrev jwt : Library Unit
jwt = record {
  E = String;
  Method = Bool;
  is_hmac = λ method. method;
  hs256 = true;
  parse = λ token keys now. if token == "t" then parse_with (keys true) now else inl "malformed";
  sign = λ method c key. if is_minted c && (key == secret) then inr "t" else inl "cannot sign";
  numeric_date = seconds;
}

sign_lem :
    (c : JwtClaims Unit) (key token : String)
    → jwt.sign true c key ≡ inr token
    → (is_minted c ≡ true) × ((key == secret) ≡ true) × (token ≡ "t")
sign_lem c key token h = ground arith

expires_lem : (expires : ℤ) → minted.expires_at ≡ some expires → pos 11000000000 ≡ expires
expires_lem expires h = ground arith

parse-sign_one :
    (c : JwtClaims Unit) (key token : String) (keys : Bool → Option String) (now expires : ℤ)
    → jwt.sign true c key ≡ inr token
    → keys true ≡ some key
    → c.expires_at ≡ some expires
    → now <ℤ expires
    → jwt.parse token keys now ≡ inr (c, true)
parse-sign_one c key token keys now expires signed given exp before =
    let (mine, right, one) = sign_lem c key token signed in
    let same : c ≡ minted = is_minted_lem c mine in
    let until : pos 11000000000 ≡ expires =
      expires_lem expires (sym (ap (λ (d : JwtClaims Unit). d.expires_at) same) ∙ exp) in
    let early : ltb_ℤ now (pos 11000000000) ≡ true =
      lt→ltb_ℤ now (pos 11000000000) (subst (λ t. now <ℤ t) (sym until) before) in
    rw (one, given, right, early) (ap (λ (d : JwtClaims Unit). inr (d, true)) (sym same))

abbrev jwt_IsLibrary : IsLibrary jwt
jwt_IsLibrary = record {
  IsText = λ s. Unit;
  IsTime = λ t. seconds t ≡ t;
  Encodes = λ x. Unit;
  hs256_hmac = refl;
  parse-sign = λ c key token keys now issued expires i u n r x s t signed given iss exp before.
      parse-sign_one c key token keys now expires signed given exp before;
}

abbrev config : Config
config = record {
  secret_key = secret;
  issuer = "shop";
  access_token_ttl = pos 10000000000;
  refresh_token_ttl = pos 100;
  blacklist_enabled = true;
}

abbrev authenticator : Authenticator (CacheOps ℤ MemoryLevel)
authenticator = record { config = config; blacklist = some (memory_ops codec) }

abbrev level : ℤ → MemoryLevel
level now = record { cache = new_memory_cache; now = now }

abbrev ann : Claims Unit
ann = record {
  user_id = "7";
  username = "ann";
  roles = [];
  extra = tt;
  issued_at = pos 0;
  expires_at = pos 0;
}

authenticate-generate_token_example :
    (authenticate jwt authenticator "t" (pos 5000000000) (level (pos 5000000000))).1
    ≡ Answer.claims (record ann { issued_at = pos 1000000000; expires_at = pos 11000000000 })
unfolding generate_token ◌+ℤ◌ active Memory.exists live lookup new_memory_cache
authenticate-generate_token_example =
    authenticate-generate_token jwt jwt_IsLibrary authenticator ann (pos 1700000000)
      (pos 5000000000) "t" (level (pos 5000000000)) tt tt tt tt tt refl refl refl (ground arith)
      refl

authenticate-revoke_token_example :
    (s' : MemoryLevel) × (revoke_token jwt (pos 1) authenticator "t" (pos 5) (pos 5) (level (pos 5))
      ≡ some (s', none))
    × ((authenticate jwt authenticator "t" (pos 8) (record s' { now = pos 8 })).1
        ≡ failed err_token_revoked)
unfolding active hmac_key
authenticate-revoke_token_example =
    authenticate-revoke_token jwt codec authenticator (pos 1) (0 ∷ 1 ∷ []) "t" minted minted true
      (pos 5) (pos 5) (pos 11000000000) (pos 8) (level (pos 5)) refl refl refl refl (ground arith)
      (ground arith) refl (ground arith)

abbrev settings : List (String × AnyValue)
settings = ("secret_key", text secret) ∷ ("blacklist_enabled", flag true) ∷ []

abbrev fresh : Plugin (CacheOps ℤ MemoryLevel)
fresh = record { config = none; authenticator = none }

abbrev no_durations : String → Option ℤ
no_durations s = none

init_never_revokes_example :
    (a : Authenticator (CacheOps ℤ MemoryLevel)) × ((init no_durations settings
        fresh).0.authenticator
      ≡ some a)
    × (32 ≤ len a.config.secret_key)
    × (revoke_token jwt (pos 1) a "t" (pos 5) (pos 5) (level (pos 5)) ≡ some (level (pos 5), none))
unfolding init read_config default_config text_or flag_or lookup
init_never_revokes_example =
    init_never_revokes jwt no_durations settings fresh (init no_durations settings fresh).0 (pos 1)
      "t" (pos 5) (pos 5) (level (pos 5)) refl
