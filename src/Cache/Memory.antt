-- ===== src/Cache/Memory.antt =====
-- pkg/cache/memory.go: the in-memory cache. A method takes the state, and each reading of
-- `time.Now()` that it makes, and returns the new state beside its result. The methods that hold
-- `c.mu` are single steps; so are the ones that read an item under `c.mu` and its fields after.
pub mod AsLevel
pub mod Pattern
pub mod Globs
pub mod Reads
pub mod Calls
pub mod Cleaner
pub mod Expiry
pub mod Counter
pub mod Batch
use goupter.Prelude.{
  ℕ, String, Bool, true, false, Option, none, some, List, [], ◌∷◌, string_key, if◌then◌else◌,
}
use goupter.Prelude.Dict.{lookup, insert, delete, delete_if}
use goupter.Prelude.Int.{ℤ, pos, negsuc, ◌+ℤ◌, ◌-ℤ◌, ltb_ℤ}
use goupter.Prelude.Word64.{add64, neg64}
use goupter.Cache.Errors.{Error, not_found}
use goupter.Cache.Json.{Json, Marshalled}

-- Times are nanoseconds from some origin; `none` is the zero `time.Time`.
pub record Item : Type 0 where
  pub value : List ℕ
  pub expires_at : Option ℤ

-- `closed` says that the channel `stop` is closed.
pub record MemoryCache : Type 0 where
  pub items : List (String × Item)
  pub closed : Bool

abbrev pub expired_at : Option ℤ → ℤ → Bool
expired_at none now = false
expired_at (some t) now = ltb_ℤ t now

unfoldable pub is_expired : Item → ℤ → Bool
is_expired item now = expired_at item.expires_at now

unfoldable pub new_memory_cache : MemoryCache
new_memory_cache = record { items = []; closed = false }

-- One tick of the loop of `cleanup`; `now key` is the clock when the loop is at `key`.
unfoldable pub cleanup : MemoryCache → (String → ℤ) → MemoryCache
cleanup c now = record c { items = delete_if (λ key item. is_expired item (now key)) c.items }

-- `item, ok := c.data[key]; ok && !item.isExpired()`
unfoldable pub live : MemoryCache → String → ℤ → Option Item
live c key now = elim (lookup key c.items) [
  | none ↦ none
  | some item ↦ if is_expired item now then none else some item
]

unfoldable pub get_raw : MemoryCache → String → ℤ → List ℕ × Option Error
get_raw c key now = elim (live c key now) [
  | none ↦ ([], some (not_found key))
  | some item ↦ (item.value, none)
]

-- `c.data[key] = &cacheItem{value: bytes, expiresAt: t}`
unfoldable pub put : MemoryCache → String → List ℕ → Option ℤ → MemoryCache
put c key bytes t = record c {
  items = insert key (record { value = bytes; expires_at = t }) c.items;
}

unfoldable pub delete_key : MemoryCache → String → MemoryCache
delete_key c key = record c { items = delete key c.items }

unfoldable pub exists : MemoryCache → String → ℤ → Bool
exists c key now = elim (live c key now) [ none ↦ false | some item ↦ true ]

-- `if ttl > 0 { item.expiresAt = time.Now().Add(ttl) }`
unfoldable pub expiry : ℤ → ℤ → Option ℤ
expiry ttl now = if ltb_ℤ (pos 0) ttl then some (now +ℤ ttl) else none

unfoldable pub mdelete : MemoryCache → List String → MemoryCache
mdelete c [] = c
mdelete c (key ∷ keys) = mdelete (delete_key c key) keys

unfoldable pub expire : MemoryCache → String → ℤ → ℤ → MemoryCache
expire c key ttl now = elim (lookup key c.items) [
  | none ↦ c
  | some item ↦ put c key item.value (some (now +ℤ ttl))
]

-- The two clock readings are those of `isExpired` and of `time.Until`.
ttl_of : Option ℤ → ℤ → ℤ → ℤ
ttl_of none now later = negsuc 0
ttl_of (some t) now later = if ltb_ℤ t now then negsuc 1 else t -ℤ later

unfoldable pub ttl : MemoryCache → String → ℤ → ℤ → ℤ
unfolding ttl_of
ttl c key now later = elim (lookup key c.items) [
  | none ↦ negsuc 1
  | some item ↦ ttl_of item.expires_at now later
]

-- `none` is the panic of `close` on a closed channel.
unfoldable pub close : MemoryCache → Option MemoryCache
close c = if c.closed then none else some (record c { closed = true })

module _ (json : Json) where
  open json use {Value, nil, marshal, unmarshal, marshal_int, unmarshal_int}

  unfoldable pub get : MemoryCache → String → Value → ℤ → Value × Option Error
  get c key dest now = elim (live c key now) [
    | none ↦ (dest, some (not_found key))
    | some item ↦ unmarshal item.value dest
  ]

  unfoldable pub set : MemoryCache → String → Value → ℤ → ℤ → MemoryCache × Option Error
  set c key value ttl now = elim (marshal value) [
    | Marshalled.err e ↦ (c, some e)
    | Marshalled.ok bytes ↦ (put c key bytes (expiry ttl now), none)
  ]

  -- `if err := json.Unmarshal(...); err == nil { result[key] = value }`
  collect : String → Value × Option Error → List (String × Value) → List (String × Value)
  collect key (value, none) result = insert key value result
  collect key (value, some e) result = result

  -- `now` is paired with each key: the clock when the loop is at that key.
  unfoldable pub mget :
      MemoryCache → List (String × ℤ) → List (String × Value) → List (String × Value)
  unfolding collect
  mget c [] result = result
  mget c ((key, now) ∷ keys) result = mget c keys (elim (live c key now) [
    | none ↦ result
    | some item ↦ collect key (unmarshal item.value nil) result
  ])

  -- The loop over `items`, in the order in which the runtime visits that map; the first failure
  -- ends it, with the items before it stored. `now key` is the clock when the loop is at `key`.
  unfoldable pub mset :
      MemoryCache → List (String × Value) → ℤ → (String → ℤ) → MemoryCache × Option Error
  mset c [] ttl now = (c, none)
  mset c ((key, value) ∷ items) ttl now = elim (marshal value) [
    | Marshalled.err e ↦ (c, some e)
    | Marshalled.ok bytes ↦ mset (put c key bytes (expiry ttl (now key))) items ttl now
  ]

  -- `current` before the addition.
  unfoldable pub current : MemoryCache → String → ℤ → ℤ
  current c key now = elim (live c key now) [
    | none ↦ pos 0
    | some item ↦ unmarshal_int item.value (pos 0)
  ]

  unfoldable pub incr_by : MemoryCache → String → ℤ → ℤ → MemoryCache × ℤ
  incr_by c key value now =
      let sum = add64 (current c key now) value in (put c key (marshal_int sum) none, sum)

  unfoldable pub incr : MemoryCache → String → ℤ → MemoryCache × ℤ
  incr c key now = incr_by c key (pos 1) now

  unfoldable pub decr_by : MemoryCache → String → ℤ → ℤ → MemoryCache × ℤ
  decr_by c key value now = incr_by c key (neg64 value) now

  unfoldable pub decr : MemoryCache → String → ℤ → MemoryCache × ℤ
  decr c key now = decr_by c key (pos 1) now

  -- `now` is the clock at `isExpired`, `later` at the computation of the expiry.
  unfoldable pub set_nx :
      MemoryCache → String → Value → ℤ → ℤ → ℤ → MemoryCache × Bool × Option Error
  set_nx c key value ttl now later = elim (live c key now) [
    | some item ↦ (c, false, none)
    | none ↦ elim (marshal value) [
      | Marshalled.err e ↦ (c, false, some e)
      | Marshalled.ok bytes ↦ (put c key bytes (expiry ttl later), true, none)
    ]
  ]
