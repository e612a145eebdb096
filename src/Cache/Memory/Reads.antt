-- ===== src/Cache/Memory/Reads.antt =====
-- What a read of pkg/cache/memory.go returns after a write.
use goupter.Prelude.{
  ℕ, String, ◌≡◌, refl, Bool, true, false, Option, none, some, List, [], ◌∷◌, ◌==◌, string_key,
  arith, if◌then◌else◌, ◌&&◌,
}
use goupter.Prelude.Dict.{lookup, Distinct, lookup-insert, lookup-delete, lookup-delete_if}
use goupter.Prelude.Int.{ℤ, pos, ◌≤ℤ◌, ◌+ℤ◌, ltb_ℤ}
use goupter.Cache.Errors.{Error, not_found}
use goupter.Cache.Json.{Json, Marshalled}
use goupter.Cache.Memory.{
  MemoryCache, Item, expired_at, is_expired, live, get_raw, set, expiry, delete_key, mdelete, put,
  cleanup,
}

-- What a reader sees of the entry that the map holds.
abbrev pub seen : Option Item → ℤ → Option Item
seen none now = none
seen (some item) now = if expired_at item.expires_at now then none else some item

pub live-seen :
    (c : MemoryCache) (key : String) (now : ℤ) → live c key now ≡ seen (lookup key c.items) now
unfolding live is_expired
live-seen c key now = ground arith

-- What `get_raw` returns for what a reader sees.
abbrev pub raw_reply : String → Option Item → List ℕ × Option Error
raw_reply key none = ([], some (not_found key))
raw_reply key (some item) = (item.value, none)

pub get_raw-live :
    (c : MemoryCache) (key : String) (now : ℤ) → get_raw c key now ≡ raw_reply key (live c key now)
unfolding get_raw
get_raw-live c key now = ground arith

pub live-put :
    (c : MemoryCache) (key j : String) (bytes : List ℕ) (t : Option ℤ) (now : ℤ)
    → live (put c key bytes t) j now ≡ (
        if key == j
        then (if expired_at t now then none else some (record { value = bytes; expires_at = t }))
        else live c j now)
unfolding live is_expired put
live-put c key j bytes t now =
    ground (arith, lookup-insert key j (record { value = bytes; expires_at = t }) c.items)

module _ (json : Json) where
  open json use {Value, marshal, unmarshal}

  -- After a `Set` that encodes, a read of the key gives the new bytes, but misses where the time to live
  -- is positive and over; a read of any other key gives what it gives without the `Set`.
  pub get_raw-set :
      (c : MemoryCache) (key j : String) (v : Value) (ttl now later : ℤ) {bytes : List ℕ}
      → marshal v ≡ Marshalled.ok bytes
      → get_raw (set json c key v ttl now).0 j later ≡ (
          if key == j
          then (if ltb_ℤ (pos 0) ttl && ltb_ℤ (now +ℤ ttl) later
              then ([], some (not_found j))
              else (bytes, none))
          else get_raw c j later)
  unfolding set get_raw expiry
  get_raw-set c key j v ttl now later {bytes} h =
      ground (arith, live-put c key j bytes (expiry ttl now) later)

-- The cleaner is invisible to reads: whatever it removes, no read at or after its visit to the key
-- can have returned.
pub live-cleanup :
    (c : MemoryCache) (now : String → ℤ) (key : String) (later : ℤ)
    → Distinct c.items
    → now key ≤ℤ later
    → live (cleanup c now) key later ≡ live c key later
unfolding live cleanup is_expired
live-cleanup c now key later d h =
    ground (arith, lookup-delete_if (λ k item. is_expired item (now k)) key c.items d)

-- Deleting keys hides exactly these.
abbrev pub listed : String → List String → Bool
listed j [] = false
listed j (key ∷ keys) = if key == j then true else listed j keys

pub live-delete_key :
    (c : MemoryCache) (key j : String) (now : ℤ)
    → live (delete_key c key) j now ≡ (if key == j then none else live c j now)
unfolding live delete_key
live-delete_key c key j now = ground (arith, lookup-delete key j c.items)

pub live-mdelete :
    (c : MemoryCache) (ks : List String) (j : String) (now : ℤ)
    → live (mdelete c ks) j now ≡ (if listed j ks then none else live c j now)
unfolding mdelete
live-mdelete c [] j now = refl
live-mdelete c (key ∷ ks) j now =
    ground (arith, live-mdelete (delete_key c key) ks j now, live-delete_key c key j now)
