-- ===== src/Cache/Memory/Batch.antt =====
-- `MGet` and `MSet` of pkg/cache/memory.go.
use goupter.Prelude.{
  ℕ, String, ◌≡◌, refl, ap, ◌∙◌, Option, none, some, List, [], ◌∷◌, ◌==◌, string_key, arith,
  if◌then◌else◌, inl, inr,
}
use goupter.Prelude.Dict.{lookup, lookup-insert}
use goupter.Prelude.Int.{ℤ}
use goupter.Cache.Errors.{Error}
use goupter.Cache.Json.{Json, Marshalled, Marshalled-cases}
use goupter.Cache.Memory.{MemoryCache, Item, live, put, expiry, collect, mget, mset}
use goupter.Cache.Memory.Reads.{live-put, seen}

module _ (json : Json) where
  open json use {Value, nil, marshal, unmarshal}

  -- The value that decodes from what a reader sees.
  abbrev pub decoded : Value × Option Error → Option Value
  decoded (value, none) = some value
  decoded (value, some e) = none

  abbrev pub value_of : Option Item → Option Value
  value_of none = none
  value_of (some item) = decoded (unmarshal item.value nil)

  abbrev pub or_else : Option Value → Option Value → Option Value
  or_else none r = r
  or_else (some v) r = some v

  -- The value of the last of the listed readings of `j` that finds one; `r` if none does.
  abbrev pub found : MemoryCache → String → List (String × ℤ) → Option Value → Option Value
  found c j [] r = r
  found c j ((key, now) ∷ ks) r =
      found c j ks (if key == j then or_else (value_of (live c key now)) r else r)

  -- What one round of the loop makes of the result.
  abbrev visit : String → Option Item → List (String × Value) → List (String × Value)
  visit key item m = elim item [
    | none ↦ m
    | some item ↦ collect json key (unmarshal item.value nil) m
  ]

  lookup-visit :
      (key j : String) (item : Option Item) (m : List (String × Value))
      → lookup j (visit key item m)
        ≡ (if key == j then or_else (value_of item) (lookup j m) else lookup j m)
  lookup-visit key j none m = ground arith
  lookup-visit key j (some item) m = lookup-collect key j (unmarshal item.value nil) m
    where
      lookup-collect :
          (key j : String) (r : Value × Option Error) (m : List (String × Value))
          → lookup j (collect json key r m)
            ≡ (if key == j then or_else (decoded r) (lookup j m) else lookup j m)
      lookup-collect key j (value, none) m = unfold collect in lookup-insert key j value m
      lookup-collect key j (value, some e) m = unfold collect in ground arith

  -- `MGet` returns a value for a key exactly when a listed reading of the key finds an entry that
  -- decodes, and then the value decoded from it; beyond these the result is what it was.
  pub lookup-mget :
      (c : MemoryCache) (ks : List (String × ℤ)) (j : String) (m : List (String × Value))
      → lookup j (mget json c ks m) ≡ found c j ks (lookup j m)
  unfolding mget
  lookup-mget c [] j m = refl
  lookup-mget c ((key, now) ∷ ks) j m =
      lookup-mget c ks j (visit key (live c key now) m)
      ∙ ap (found c j ks) (lookup-visit key j (live c key now) m)

  -- The items that the loop of `MSet` stores: those before the first that does not encode.
  abbrev pub stored : List (String × Value) → List (String × List ℕ)
  stored [] = []
  stored ((key, v) ∷ items) = elim (marshal v) [
    | Marshalled.ok bytes ↦ (key, bytes) ∷ stored items
    | Marshalled.err e ↦ []
  ]

  -- The error of the first item that does not encode.
  abbrev pub first_error : List (String × Value) → Option Error
  first_error [] = none
  first_error ((key, v) ∷ items) = elim (marshal v) [
    | Marshalled.ok bytes ↦ first_error items
    | Marshalled.err e ↦ some e
  ]

  put_all : MemoryCache → List (String × List ℕ) → ℤ → (String → ℤ) → MemoryCache
  put_all c [] ttl now = c
  put_all c ((key, bytes) ∷ items) ttl now =
      put_all (put c key bytes (expiry ttl (now key))) items ttl now

  -- What a reader sees of the last of the stored items with the key; `r` if there is none.
  abbrev pub last_stored :
      String → List (String × List ℕ) → ℤ → (String → ℤ) → ℤ → Option Item → Option Item
  last_stored j [] ttl now later r = r
  last_stored j ((key, bytes) ∷ items) ttl now later r = last_stored j items ttl now later (
      if key == j
      then seen (some (record { value = bytes; expires_at = expiry ttl (now key) })) later
      else r)

  live-put_all :
      (c : MemoryCache) (items : List (String × List ℕ)) (ttl : ℤ) (now : String → ℤ) (j : String)
      (later : ℤ)
      → live (put_all c items ttl now) j later ≡ last_stored j items ttl now later (live c j later)
  unfolding put_all
  live-put_all c [] ttl now j later = refl
  live-put_all c ((key, bytes) ∷ items) ttl now j later =
      live-put_all (put c key bytes (expiry ttl (now key))) items ttl now j later
      ∙ ap (last_stored j items ttl now later) (live-put c key j bytes (expiry ttl (now key)) later)

  mset-put_all :
      (c : MemoryCache) (items : List (String × Value)) (ttl : ℤ) (now : String → ℤ)
      → mset json c items ttl now ≡ (put_all c (stored items) ttl now, first_error items)
  unfolding mset put_all
  mset-put_all c [] ttl now = refl
  mset-put_all c ((key, v) ∷ items) ttl now = elim (Marshalled-cases (marshal v)) [
    | inl (bytes, e) ↦
        ground (arith, mset-put_all (put c key bytes (expiry ttl (now key))) items ttl now)
    | inr (x, e) ↦ ground arith
  ]

  -- `MSet` fails with the error of the first item, in the order in which the runtime visits the
  -- map, that does not encode. It is not atomic: the items before that one are readable, with
  -- their expiry, and only they; every other key reads as before.
  pub live-mset :
      (c : MemoryCache) (items : List (String × Value)) (ttl : ℤ) (now : String → ℤ) (j : String)
      (later : ℤ)
      → ((mset json c items ttl now).1 ≡ first_error items)
        × (live (mset json c items ttl now).0 j later
            ≡ last_stored j (stored items) ttl now later (live c j later))
  live-mset c items ttl now j later = (
    rw (mset-put_all c items ttl now),
    rw (mset-put_all c items ttl now) (live-put_all c (stored items) ttl now j later),
  )
