-- ===== src/Examples/Multi.antt =====
-- Examples about pkg/cache/multi.go: two memory caches, the second with more keys.
use goupter.Prelude.{◌≡◌, refl, false, none, List, [], ◌∷◌, ◌++◌, map, string_key, if◌then◌else◌}
use goupter.Prelude.Dict.{lookup, insert, delete}
use goupter.Prelude.Int.{ℤ, pos, ltb_ℤ, ◌+ℤ◌, ◌-ℤ◌}
use goupter.Cache.Errors.{not_found}
use goupter.Cache.Level.{CacheOps}
use goupter.Cache.Memory
use goupter.Cache.Memory.{MemoryCache, live, is_expired, put, expiry}
use goupter.Cache.Memory.AsLevel.{
  MemoryLevel, elapse_all, over_all, memory_ops, memory_IsCache, memory_IsBatch,
}
use goupter.Cache.Multi.{get, get_raw, set, incr_by, mget, set_nx, on_all}
use goupter.Cache.Multi.View.{view_all, raw_of, get_raw-view_all, get_raw-incr_by_stale}
use goupter.Cache.Multi.OverMemory.{reply_of, get_raw-set_levels}
use goupter.Cache.Multi.Batch.{first_value, lookup-mget_levels}
use goupter.Cache.Multi.Backfill.{get-hit_below, written}
use goupter.Cache.Multi.Writes.{set_nx_outcome, set_nx-append, last_of, on_all-map}
use goupter.Cache.Memory.Reads.{listed}
use goupter.Examples.CacheData.{codec, two}

program : Unit {0}
unfolding lookup insert delete ◌+ℤ◌ ◌-ℤ◌ is_expired live put expiry Memory.get Memory.get_raw
    Memory.set Memory.ttl Memory.set_nx Memory.new_memory_cache
program = tt

abbrev ops : CacheOps ℤ MemoryLevel
ops = memory_ops codec

abbrev empty : MemoryLevel
empty = record { cache = record { items = []; closed = false }; now = pos 10 }

abbrev full : MemoryLevel
full = record { cache = two; now = pos 10 }

abbrev levels : List MemoryLevel
levels = empty ∷ full ∷ []

get_raw-view_all_example : get_raw ops levels "b" ≡ (
  levels,
  (raw_of "b" (view_all codec ops (memory_IsCache codec) levels "b")).0,
  (raw_of "b" (view_all codec ops (memory_IsCache codec) levels "b")).1,
)
get_raw-view_all_example = get_raw-view_all codec ops (memory_IsCache codec) levels "b"

-- The time to live is over on the second level, and not on the first.
get_raw-set_levels_example :
    reply_of codec
      (get_raw ops (elapse_all (4 ∷ 9 ∷ []) (set ops levels "b" (pos 3) (pos 5)).0) "b")
    ≡ (0 ∷ 3 ∷ [], none)
unfolding over_all
get_raw-set_levels_example =
    get_raw-set_levels codec empty (full ∷ []) "b" "b" (pos 3) (pos 5) (0 ∷ 3 ∷ []) (4 ∷ 9 ∷ [])
      refl

get_raw-incr_by_stale_example :
    (get_raw ops (incr_by ops (full ∷ full ∷ []) "a" (pos 1)).0 "a").1 ≡ 0 ∷ 7 ∷ []
unfolding program
get_raw-incr_by_stale_example =
    get_raw-incr_by_stale codec ops (memory_IsCache codec) full full [] "a" (pos 1) (0 ∷ 7 ∷ [])
      refl

lookup-mget_levels_example : lookup "a" (mget ops levels ("a" ∷ "z" ∷ [])).1 ≡ (
    if listed "a" ("a" ∷ "z" ∷ []) then first_value ops (memory_IsBatch codec) levels "a" else none)
lookup-mget_levels_example =
    lookup-mget_levels ops (memory_IsBatch codec) levels ("a" ∷ "z" ∷ []) "a"

get-hit_below_example : get ops (empty ∷ empty ∷ full ∷ []) "b" (pos 0) ≡ (
  (if ltb_ℤ (pos 0) (pos 40)
        then map (written ops "b" (pos 0) (pos 8) (pos 40)) (empty ∷ empty ∷ [])
        else empty ∷ empty ∷ [])
      ++ full ∷ [],
  pos 8,
  none,
)
unfolding program
get-hit_below_example =
    get-hit_below ops "b" (pos 0) empty full full full (empty ∷ []) [] (pos 8) (pos 40) none
      ((not_found "b", refl), ((not_found "b", refl), tt)) refl refl

set_nx-append_example :
    set_nx ops (empty ∷ full ∷ []) "a" (pos 1) (pos 5)
    ≡ set_nx_outcome ops (empty ∷ []) full false none (λ l. (ops.set l "a" (pos 1) (pos 5)).0)
unfolding program
set_nx-append_example = set_nx-append ops (empty ∷ []) full full "a" (pos 1) (pos 5) false none refl

on_all-map_example : on_all (λ l. ops.delete l "a") levels none ≡ (
  map (λ l. (ops.delete l "a").0) levels,
  last_of ops none (map (λ l. (ops.delete l "a").1) levels),
)
on_all-map_example = on_all-map ops (λ l. ops.delete l "a") levels
