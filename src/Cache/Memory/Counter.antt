-- ===== src/Cache/Memory/Counter.antt =====
-- `Incr`, `IncrBy`, `Decr` and `DecrBy` of pkg/cache/memory.go.
use goupter.Prelude.{ℕ, String, ◌≡◌, ◌∙◌, none, some, List, [], ◌∷◌, string_key, arith}
use goupter.Prelude.Int.{ℤ, pos, negsuc, ◌+ℤ◌}
use goupter.Prelude.Word64.{Fits64, add64, wrap64-Fits64, add64_of_Fits64}
use goupter.Cache.Json.{Json}
use goupter.Cache.Memory.{MemoryCache, live, put, current, incr_by, ttl}
use goupter.Cache.Memory.Expiry.{ttl-live}
use goupter.Prelude.Dict.{lookup}
use goupter.Cache.Memory.Reads.{live-put}

-- What the code relies on of `encoding/json`: an encoded `int64` decodes to itself.
abbrev pub IntRoundTrip : Json → Type 0
IntRoundTrip json = (n m : ℤ) → Fits64 n → json.unmarshal_int (json.marshal_int n) m ≡ n

live-put_forever :
    (c : MemoryCache) (key : String) (bytes : List ℕ) (later : ℤ)
    → live (put c key bytes none) key later ≡ some (record { value = bytes; expires_at = none })
live-put_forever c key bytes later =
    ground (arith, live-put c key key bytes none later, string_key.same_iff key key)

-- The sum of the amounts, from `acc` on.
abbrev pub sum_from : ℤ → List (ℤ × ℤ) → ℤ
sum_from acc [] = acc
sum_from acc ((n, now) ∷ rest) = sum_from (acc +ℤ n) rest

-- Every partial sum is an `int64`.
abbrev pub SumsFit : ℤ → List (ℤ × ℤ) → Type 0
SumsFit acc [] = Unit
SumsFit acc ((n, now) ∷ rest) = Fits64 (acc +ℤ n) × SumsFit (acc +ℤ n) rest

module _ (json : Json) where
  -- A row of `IncrBy` calls on one key, each with its amount and its reading of the clock.
  pub incr_all : MemoryCache → String → List (ℤ × ℤ) → MemoryCache
  incr_all c key [] = c
  incr_all c key ((n, now) ∷ rest) = incr_all (incr_by json c key n now).0 key rest

module _ (json : Json) (round_trip : IntRoundTrip json) where
  add64-Fits64 : (a b : ℤ) → Fits64 (add64 a b)
  unfolding add64
  add64-Fits64 a b = wrap64-Fits64 (a +ℤ b)

  -- `IncrBy` returns what the counter reads from then on.
  pub current-incr_by :
      (c : MemoryCache) (key : String) (n now later : ℤ)
      → current json (incr_by json c key n now).0 key later ≡ (incr_by json c key n now).1
  unfolding current incr_by
  current-incr_by c key n now later =
      rw (live-put_forever c key _ later, current)
        (round_trip (add64 (current json c key now) n) (pos 0)
          (add64-Fits64 (current json c key now) n))

  incr_all_from :
      (c : MemoryCache) (key : String) (acc : ℤ) (calls : List (ℤ × ℤ)) (end : ℤ)
      → ((later : ℤ) → current json c key later ≡ acc)
      → SumsFit acc calls
      → current json (incr_all json c key calls) key end ≡ sum_from acc calls
  unfolding incr_all
  incr_all_from c key acc [] end h fits = h end
  incr_all_from c key acc ((n, now) ∷ rest) end h fits =
      incr_all_from (incr_by json c key n now).0 key (acc +ℤ n) rest end
        (λ later. current-incr_by c key n now later ∙ first later) fits.1
    where
      first : ℤ → (incr_by json c key n now).1 ≡ acc +ℤ n
      first later = unfold incr_by in rw (h now) (add64_of_Fits64 acc n fits.0)

  -- A counter that starts on a key that is not in the map holds the sum of all that was added, at
  -- any later time, if no partial sum leaves the range of `int64`.
  pub current-incr_all :
      (c : MemoryCache) (key : String) (calls : List (ℤ × ℤ)) (end : ℤ)
      → lookup key c.items ≡ none
      → SumsFit (pos 0) calls
      → current json (incr_all json c key calls) key end ≡ sum_from (pos 0) calls
  unfolding current live
  current-incr_all c key calls end h fits =
      incr_all_from c key (pos 0) calls end (λ later. ground arith) fits

module _ (json : Json) where
  -- Whatever expiry a key had, `IncrBy` removes it: the counter is kept for good.
  pub ttl-incr_by :
      (c : MemoryCache) (key : String) (n now later after : ℤ)
      → ttl (incr_by json c key n now).0 key later after ≡ negsuc 0
  unfolding incr_by
  ttl-incr_by c key n now later after = rw (ttl-live, live-put_forever c key _ later)
