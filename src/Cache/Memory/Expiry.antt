-- ===== src/Cache/Memory/Expiry.antt =====
-- `Expire`, `TTL` and `SetNX` of pkg/cache/memory.go.
use goupter.Prelude.{
  ℕ, String, ◌≡◌, true, false, Option, none, some, List, string_key, arith, Option-cases, inl, inr,
  ◌⊎◌,
}
use goupter.Prelude.Dict.{lookup, Distinct, lookup-delete_if}
use goupter.Prelude.Int.{ℤ, pos, negsuc, ◌+ℤ◌, ◌-ℤ◌, ◌≤ℤ◌}
use goupter.Cache.Json.{Json, Marshalled, Marshalled-cases}
use goupter.Cache.Memory.{
  MemoryCache, Item, is_expired, cleanup, expire, set_nx, live, put, expiry, ttl,
}
use goupter.Cache.Memory.Reads.{live-put}

-- `Expire` takes an entry back from the dead: an entry that has expired, and that the cleaner has
-- not met, is readable again after `Expire`, until the new expiry.
pub live-expire_expired :
    (c : MemoryCache) (key : String) (span now later : ℤ) {item : Item}
    → lookup key c.items ≡ some item
    → live c key now ≡ none
    → later ≤ℤ now +ℤ span
    → live (expire c key span now) key later
      ≡ some (record { value = item.value; expires_at = some (now +ℤ span) })
unfolding expire
live-expire_expired c key span now later {item} h dead l =
    ground
      (arith, live-put c key key item.value (some (now +ℤ span)) later, string_key.same_iff key key)

-- Had the cleaner met the entry first, `Expire` would have done nothing.
pub expire-cleanup :
    (c : MemoryCache) (key : String) (clock : String → ℤ) (span now : ℤ)
    → Distinct c.items
    → live c key (clock key) ≡ none
    → expire (cleanup c clock) key span now ≡ cleanup c clock
unfolding expire cleanup live is_expired
expire-cleanup c key clock span now d h =
    ground (arith, lookup-delete_if (λ k item. is_expired item (clock k)) key c.items d)

abbrev pub ttl_reply : Option Item → ℤ → ℤ
ttl_reply none later = negsuc 1
ttl_reply (some item) later = elim item.expires_at [ none ↦ negsuc 0 | some t ↦ t -ℤ later ]

-- `TTL` tells the three cases apart: -2 exactly for a key that no read finds, -1 for one without
-- an expiry, and otherwise the time that is left.
pub ttl-live :
    (c : MemoryCache) (key : String) (now later : ℤ)
    → ttl c key now later ≡ ttl_reply (live c key now) later
unfolding ttl live is_expired
ttl-live c key now later = ground arith

-- An entry with the expiry that a time to live gives is readable up to it, and for good without one.
live-put_fresh :
    (c : MemoryCache) (key : String) (bytes : List ℕ) (span later again : ℤ)
    → (again ≤ℤ later +ℤ span) ⊎ (span ≤ℤ pos 0)
    → live (put c key bytes (expiry span later)) key again
      ≡ some (record { value = bytes; expires_at = expiry span later })
unfolding expiry
live-put_fresh c key bytes span later again (inl l) =
    ground (arith, live-put c key key bytes (expiry span later) again, string_key.same_iff key key)
live-put_fresh c key bytes span later again (inr l) =
    ground (arith, live-put c key key bytes (expiry span later) again, string_key.same_iff key key)

module _ (json : Json) where
  open json use {Value, marshal}

  -- A `SetNX` succeeds exactly when no read finds the key and the value encodes, and then it has
  -- stored the value with its expiry.
  pub set_nx_acquires :
      (c : MemoryCache) (key : String) (v : Value) (span now later : ℤ)
      → (set_nx json c key v span now later).1 ≡ true
      → (bytes : List ℕ) × (live c key now ≡ none)
        × (marshal v ≡ Marshalled.ok bytes)
        × ((set_nx json c key v span now later).0 ≡ put c key bytes (expiry span later))
  unfolding set_nx
  set_nx_acquires c key v span now later h = elim (Option-cases (live c key now)) [
    | inr (item, e) ↦ absurd (ground arith)
    | inl e ↦ elim (Marshalled-cases (marshal v)) [
      | inl (bytes, m) ↦ (bytes, e, m, ground arith)
      | inr (x, m) ↦ absurd (ground arith)
    ]
  ]

  set_nx_refused :
      (c : MemoryCache) (key : String) (w : Value) (span now later : ℤ) {item : Item}
      → live c key now ≡ some item
      → set_nx json c key w span now later ≡ (c, false, none)
  unfolding set_nx
  set_nx_refused c key w span now later h = rw (h, set_nx)

  -- `SetNX` as a lock: from a `SetNX` that succeeds until its time to live is over (for good, if
  -- that is not positive), a second `SetNX` on the key fails without an error and changes nothing.
  pub set_nx-set_nx :
      (c : MemoryCache) (key : String) (v w : Value) (span span' now later again again' : ℤ)
      → (set_nx json c key v span now later).1 ≡ true
      → (again ≤ℤ later +ℤ span) ⊎ (span ≤ℤ pos 0)
      → set_nx json (set_nx json c key v span now later).0 key w span' again again'
        ≡ ((set_nx json c key v span now later).0, false, none)
  set_nx-set_nx c key v w span span' now later again again' h l =
      let (bytes, e, m, stored) = set_nx_acquires c key v span now later h in
      rw stored (
        set_nx_refused (put c key bytes (expiry span later)) key w span' again again'
          (live-put_fresh c key bytes span later again l))
