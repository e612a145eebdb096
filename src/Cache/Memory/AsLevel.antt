-- ===== src/Cache/Memory/AsLevel.antt =====
-- The cache of pkg/cache/memory.go as an implementation of the interface of pkg/cache/cache.go.
use mathlib.Core.Option
use goupter.Prelude.{
  ℕ, String, ◌≡◌, refl, ◌∙◌, ◌⊎◌, Bool, true, false, ◌&&◌, Option, none, some, List, [], ◌∷◌, ◌==◌,
  string_key, arith, map, if◌then◌else◌, Bool-cases, inl, inr,
}
use goupter.Prelude.Dict.{lookup}
use goupter.Prelude.Int.{ℤ, pos, ◌+ℤ◌, ltb_ℤ}
use goupter.Cache.Errors.{Error, not_found, is_not_found}
use goupter.Cache.Json.{Json, Marshalled}
use goupter.Cache.Level.{CacheOps, IsCache}
use goupter.Cache.Memory
use goupter.Cache.Memory.{MemoryCache, Item, live, put, expiry}
use goupter.Cache.Memory.Pattern
use goupter.Cache.Memory.Batch.{value_of, or_else, found, lookup-mget}
use goupter.Cache.Multi.Batch.{IsBatch}
use goupter.Cache.Memory.Reads.{listed, get_raw-live, live-put, live-delete_key}

-- A memory cache and its reading of the clock. Each level has its own; a reading serves one call of the
-- multi-level cache on the level, and `elapse` moves it on between the calls.
pub record MemoryLevel : Type 0 where
  pub cache : MemoryCache
  pub now : ℤ

unfoldable pub elapse : ℕ → MemoryLevel → MemoryLevel
unfolding ◌+ℤ◌
elapse span s = record s { now = s.now +ℤ pos span }

-- Time passes on the levels, on each a span of its own; where no span is given, none does.
unfoldable pub elapse_all : List ℕ → List MemoryLevel → List MemoryLevel
unfolding elapse
elapse_all [] levels = levels
elapse_all (span ∷ spans) [] = []
elapse_all (span ∷ spans) (level ∷ levels) = elapse span level ∷ elapse_all spans levels

-- A time to live, if it is positive, is over after the span.
abbrev pub is_over : ℤ → ℕ → Bool
is_over ttl span = ltb_ℤ (pos 0) ttl && ltb_ℤ ttl (pos span)

-- The time to live is over on every level.
unfoldable pub over_all : ℤ → List ℕ → List MemoryLevel → Bool
over_all ttl spans [] = true
over_all ttl [] (level ∷ levels) = false
over_all ttl (span ∷ spans) (level ∷ levels) = is_over ttl span && over_all ttl spans levels

module _ (json : Json) where
  abbrev pub memory_ops : CacheOps json.Value MemoryLevel
  memory_ops = record {
    get = λ s key dest.
        (s, (Memory.get json s.cache key dest s.now).0, (Memory.get json s.cache key dest s.now).1);
    get_raw =
        λ s key. (s, (Memory.get_raw s.cache key s.now).0, (Memory.get_raw s.cache key s.now).1);
    set = λ s key v ttl. (
      record s { cache = (Memory.set json s.cache key v ttl s.now).0 },
      (Memory.set json s.cache key v ttl s.now).1,
    );
    delete = λ s key. (record s { cache = Memory.delete_key s.cache key }, none);
    exists = λ s key. (s, Memory.exists s.cache key s.now, none);
    mget = λ s ks. (s, Memory.mget json s.cache (map (λ k. (k, s.now)) ks) [], none);
    mset = λ s items ttl. (
      record s { cache = (Memory.mset json s.cache items ttl (λ _. s.now)).0 },
      (Memory.mset json s.cache items ttl (λ _. s.now)).1,
    );
    mdelete = λ s ks. (record s { cache = Memory.mdelete s.cache ks }, none);
    incr = λ s key. (
      record s { cache = (Memory.incr json s.cache key s.now).0 },
      (Memory.incr json s.cache key s.now).1,
      none,
    );
    incr_by = λ s key n. (
      record s { cache = (Memory.incr_by json s.cache key n s.now).0 },
      (Memory.incr_by json s.cache key n s.now).1,
      none,
    );
    decr = λ s key. (
      record s { cache = (Memory.decr json s.cache key s.now).0 },
      (Memory.decr json s.cache key s.now).1,
      none,
    );
    decr_by = λ s key n. (
      record s { cache = (Memory.decr_by json s.cache key n s.now).0 },
      (Memory.decr_by json s.cache key n s.now).1,
      none,
    );
    set_nx = λ s key v ttl. (
      record s { cache = (Memory.set_nx json s.cache key v ttl s.now s.now).0 },
      (Memory.set_nx json s.cache key v ttl s.now s.now).1,
      (Memory.set_nx json s.cache key v ttl s.now s.now).2,
    );
    expire = λ s key ttl. (record s { cache = Memory.expire s.cache key ttl s.now }, none);
    ttl = λ s key. (s, Memory.ttl s.cache key s.now s.now, none);
    keys = λ s pattern. (s, Pattern.keys s.cache pattern (λ _. s.now), none);
    close = λ s. Option.map (λ c. (record s { cache = c }, none)) (Memory.close s.cache);
    ping = λ s. (s, none);
  }

  abbrev pub bytes_of : Option Item → Option (List ℕ)
  bytes_of none = none
  bytes_of (some item) = some item.value

  abbrev pub memory_view : MemoryLevel → String → Option (List ℕ)
  memory_view s key = bytes_of (live s.cache key s.now)

  pub memory_get_raw_hit :
      (s : MemoryLevel) (key : String) (bytes : List ℕ)
      → memory_view s key ≡ some bytes
      → memory_ops.get_raw s key ≡ (s, bytes, none)
  memory_get_raw_hit s key bytes h = ground (arith, get_raw-live s.cache key s.now)

  pub memory_get_raw_miss :
      (s : MemoryLevel) (key : String)
      → memory_view s key ≡ none
      → (e : Error) × (memory_ops.get_raw s key ≡ (s, [], some e)) × (is_not_found (some e) ≡ true)
  unfolding is_not_found
  memory_get_raw_miss s key h =
      (not_found key, ground (arith, get_raw-live s.cache key s.now), refl)

  pub memory_set_ok :
      (s : MemoryLevel) (key : String) (v : json.Value) (ttl : ℤ) (bytes : List ℕ)
      → json.marshal v ≡ Marshalled.ok bytes
      → (memory_ops.set s key v ttl).1 ≡ none
  unfolding Memory.set
  memory_set_ok s key v ttl bytes m = ground arith

  pub memory_set_view :
      (s : MemoryLevel) (key : String) (v : json.Value) (ttl : ℤ) (bytes : List ℕ) (j : String)
      → json.marshal v ≡ Marshalled.ok bytes
      → memory_view (memory_ops.set s key v ttl).0 j
        ≡ (if key == j then some bytes else memory_view s j)
  unfolding Memory.set expiry ◌+ℤ◌
  memory_set_view s key v ttl bytes j m =
      ground (arith, live-put s.cache key j bytes (expiry ttl s.now) s.now)

  pub memory_set_later :
      (s : MemoryLevel) (key : String) (v : json.Value) (ttl : ℤ) (bytes : List ℕ) (j : String)
      (span : ℕ)
      → json.marshal v ≡ Marshalled.ok bytes
      → memory_view (elapse span (memory_ops.set s key v ttl).0) j ≡ (
          if key == j
          then (if is_over ttl span then none else some bytes)
          else memory_view (elapse span s) j)
  unfolding Memory.set expiry elapse ◌+ℤ◌
  memory_set_later s key v ttl bytes j span m =
      ground (arith, live-put s.cache key j bytes (expiry ttl s.now) (s.now +ℤ pos span))

  pub memory_set_err :
      (s : MemoryLevel) (key : String) (v : json.Value) (ttl : ℤ) (e : Error)
      → json.marshal v ≡ Marshalled.err e
      → memory_ops.set s key v ttl ≡ (s, some e)
  unfolding Memory.set
  memory_set_err s key v ttl e m = ground arith

  pub memory_delete_view :
      (s : MemoryLevel) (key j : String)
      → memory_view (memory_ops.delete s key).0 j ≡ (if key == j then none else memory_view s j)
  memory_delete_view s key j = ground (arith, live-delete_key s.cache key j s.now)

  -- The memory cache keeps the promises that the multi-level cache relies on.
  abbrev pub memory_IsCache : IsCache json memory_ops
  memory_IsCache = record {
    view = memory_view;
    get_raw_hit = memory_get_raw_hit;
    get_raw_miss = memory_get_raw_miss;
    set_ok = memory_set_ok;
    set_view = memory_set_view;
    set_err = memory_set_err;
    delete_ok = λ s key. refl;
    delete_view = memory_delete_view;
  }

  abbrev pub memory_value_at : MemoryLevel → String → Option json.Value
  memory_value_at s key = value_of json (live s.cache key s.now)

  -- A second reading of a key finds what the first did.
  read_same :
      (s : MemoryLevel) (j key : String) (r : Option json.Value)
      → (r ≡ none) ⊎ (r ≡ memory_value_at s j)
      → (key == j) ≡ true
      → or_else json (value_of json (live s.cache key s.now)) r ≡ memory_value_at s j
  read_same s j key r h e = rw ((string_key.same_iff key j).0 e) (ground arith)

  found_same :
      (s : MemoryLevel) (j : String) (ks : List String) (r : Option json.Value)
      → (r ≡ none) ⊎ (r ≡ memory_value_at s j)
      → found json s.cache j (map (λ k. (k, s.now)) ks) r
        ≡ (if listed j ks then memory_value_at s j else r)
  found_same s j [] r h = refl
  found_same s j (key ∷ ks) r h = elim (Bool-cases (key == j)) [
    | inl e ↦
        rw (e, found)
          (found_same s j ks (read key r) (inr (read_same s j key r h e))
            ∙ collapse _ (read_same s j key r h e))
    | inr e ↦ rw (e, found) (found_same s j ks r h)
  ]
    where
      read : String → Option json.Value → Option json.Value
      read key r = or_else json (value_of json (live s.cache key s.now)) r

      collapse :
          (r' : Option json.Value)
          → r' ≡ memory_value_at s j
          → (if listed j ks then memory_value_at s j else r') ≡ memory_value_at s j
      collapse r' p = ground arith

  pub memory_mget :
      (s : MemoryLevel) (ks : List String)
      → (values : List (String × json.Value)) × (memory_ops.mget s ks ≡ (s, values, none))
        × ((j : String) → lookup j values ≡ (if listed j ks then memory_value_at s j else none))
  memory_mget s ks = (
    Memory.mget json s.cache (map (λ k. (k, s.now)) ks) [],
    refl,
    λ j.
        lookup-mget json s.cache (map (λ k. (k, s.now)) ks) j []
        ∙ unfold lookup in found_same s j ks none (inl refl),
  )

  abbrev pub memory_IsBatch : IsBatch memory_ops
  memory_IsBatch = record { value_at = memory_value_at; mget_lem = memory_mget }
