-- ===== src/Examples/CacheData.antt =====
-- A codec and caches for the examples about pkg/cache.
use goupter.Prelude.{ℕ, zero, suc, ◌≡◌, refl, false, Option, none, some, List, [], ◌∷◌}
use goupter.Prelude.Int.{ℤ, pos, negsuc}
use goupter.Cache.Errors.{Error, other}
use goupter.Cache.Json.{Json, Marshalled}
use goupter.Cache.Memory.{MemoryCache}

abbrev pub encode : ℤ → List ℕ
encode (pos n) = 0 ∷ n ∷ []
encode (negsuc n) = 1 ∷ n ∷ []

abbrev pub decode_int : List ℕ → ℤ → ℤ
decode_int (zero ∷ n ∷ []) d = pos n
decode_int (suc zero ∷ n ∷ []) d = negsuc n
decode_int _ d = d

-- Values are numbers; -1 does not encode.
abbrev pub encode_value : ℤ → Marshalled
encode_value (pos n) = Marshalled.ok (encode (pos n))
encode_value (negsuc zero) = Marshalled.err (other "unsupported value")
encode_value (negsuc (suc n)) = Marshalled.ok (encode (negsuc (suc n)))

abbrev pub decode : List ℕ → ℤ → ℤ × Option Error
decode (zero ∷ n ∷ []) d = (pos n, none)
decode (suc zero ∷ n ∷ []) d = (negsuc n, none)
decode _ d = (d, some (other "invalid character"))

abbrev pub codec : Json
codec = record {
  Value = ℤ;
  nil = pos 0;
  marshal = encode_value;
  unmarshal = decode;
  marshal_int = encode;
  unmarshal_int = decode_int;
}

pub decode_int-encode : (n m : ℤ) → decode_int (encode n) m ≡ n
decode_int-encode (pos n) m = refl
decode_int-encode (negsuc n) m = refl

-- "a" for good, "b" until 50.
abbrev pub two : MemoryCache
two = record {
  items =
      ("a", record { value = 0 ∷ 7 ∷ []; expires_at = none })
      ∷ ("b", record { value = 0 ∷ 8 ∷ []; expires_at = some (pos 50) })
      ∷ [];
  closed = false;
}
