-- ===== src/Cache/Memory/Calls.antt =====
-- Whole histories of the cache of pkg/cache/memory.go: every call that changes it, the background
-- cleaner included, against a map that never forgets.
use goupter.Prelude.{
  ℕ, String, Option, none, some, List, [], ◌∷◌, string_key, Option-cases, inl, inr,
}
use goupter.Prelude.Dict.{lookup, Distinct, insert-Distinct, delete-Distinct, delete_if-Distinct}
use goupter.Prelude.Int.{ℤ, ◌+ℤ◌}
use goupter.Cache.Json.{Json, Marshalled-cases}
use goupter.Cache.Memory.{
  MemoryCache, cleanup, delete_key, mdelete, expire, set, mset, incr_by, set_nx, live, put, expiry,
}

module _ (json : Json) where
  open json use {Value, marshal}

  pub data Call : Type 0 where
    tick : (String → ℤ) → Call
    sets : String → Value → ℤ → ℤ → Call
    deletes : String → Call
    mdeletes : List String → Call
    msets : List (String × Value) → ℤ → (String → ℤ) → Call
    incr_bys : String → ℤ → ℤ → Call
    set_nxs : String → Value → ℤ → ℤ → ℤ → Call
    expires : String → ℤ → ℤ → Call

  -- The state after a call, its reply dropped.
  unfoldable pub step : MemoryCache → Call → MemoryCache
  step c (tick now) = cleanup c now
  step c (sets key v ttl now) = (set json c key v ttl now).0
  step c (deletes key) = delete_key c key
  step c (mdeletes ks) = mdelete c ks
  step c (msets items ttl now) = (mset json c items ttl now).0
  step c (incr_bys key n now) = (incr_by json c key n now).0
  step c (set_nxs key v ttl now later) = (set_nx json c key v ttl now later).0
  step c (expires key ttl now) = expire c key ttl now

  unfoldable pub run : MemoryCache → List Call → MemoryCache
  run c [] = c
  run c (call ∷ calls) = run (step c call) calls

  mdelete-Distinct :
      (c : MemoryCache) (ks : List String) → Distinct c.items → Distinct (mdelete c ks).items
  unfolding mdelete delete_key
  mdelete-Distinct c [] d = d
  mdelete-Distinct c (key ∷ ks) d =
      mdelete-Distinct (delete_key c key) ks (delete-Distinct key c.items d)

  put-Distinct :
      (c : MemoryCache) (key : String) (bytes : List ℕ) (t : Option ℤ)
      → Distinct c.items
      → Distinct (put c key bytes t).items
  unfolding put
  put-Distinct c key bytes t d = insert-Distinct key _ c.items d

  set-Distinct :
      (c : MemoryCache) (key : String) (v : Value) (ttl now : ℤ)
      → Distinct c.items
      → Distinct (set json c key v ttl now).0.items
  unfolding set
  set-Distinct c key v ttl now d = elim (Marshalled-cases (marshal v)) [
    | inl (bytes, e) ↦ rw (e, set) (put-Distinct c key bytes (expiry ttl now) d)
    | inr (x, e) ↦ rw (e, set) d
  ]

  mset-Distinct :
      (c : MemoryCache) (items : List (String × Value)) (ttl : ℤ) (now : String → ℤ)
      → Distinct c.items
      → Distinct (mset json c items ttl now).0.items
  unfolding mset
  mset-Distinct c [] ttl now d = d
  mset-Distinct c ((key, v) ∷ items) ttl now d = elim (Marshalled-cases (marshal v)) [
    | inl (bytes, e) ↦
        rw (e, mset)
          (mset-Distinct (put c key bytes (expiry ttl (now key))) items ttl now
            (put-Distinct c key bytes (expiry ttl (now key)) d))
    | inr (x, e) ↦ rw (e, mset) d
  ]

  set_nx-Distinct :
      (c : MemoryCache) (key : String) (v : Value) (ttl now later : ℤ)
      → Distinct c.items
      → Distinct (set_nx json c key v ttl now later).0.items
  unfolding set_nx
  set_nx-Distinct c key v ttl now later d = elim (Option-cases (live c key now)) [
    | inr (item, h) ↦ rw (h, set_nx) d
    | inl h ↦ elim (Marshalled-cases (marshal v)) [
      | inl (bytes, e) ↦ rw (h, set_nx, e) (put-Distinct c key bytes (expiry ttl later) d)
      | inr (x, e) ↦ rw (h, set_nx, e) d
    ]
  ]

  expire-Distinct :
      (c : MemoryCache) (key : String) (ttl now : ℤ)
      → Distinct c.items
      → Distinct (expire c key ttl now).items
  unfolding expire
  expire-Distinct c key ttl now d = elim (Option-cases (lookup key c.items)) [
    | inl h ↦ rw (h, expire) d
    | inr (item, h) ↦ rw (h, expire) (put-Distinct c key item.value (some (now +ℤ ttl)) d)
  ]

  -- Every call keeps the keys of the map distinct.
  pub step-Distinct :
      (c : MemoryCache) (call : Call) → Distinct c.items → Distinct (step c call).items
  unfolding step cleanup delete_key incr_by
  step-Distinct c (tick now) d = delete_if-Distinct _ c.items d
  step-Distinct c (sets key v ttl now) d = set-Distinct c key v ttl now d
  step-Distinct c (deletes key) d = delete-Distinct key c.items d
  step-Distinct c (mdeletes ks) d = mdelete-Distinct c ks d
  step-Distinct c (msets items ttl now) d = mset-Distinct c items ttl now d
  step-Distinct c (incr_bys key n now) d = put-Distinct c key _ none d
  step-Distinct c (set_nxs key v ttl now later) d = set_nx-Distinct c key v ttl now later d
  step-Distinct c (expires key ttl now) d = expire-Distinct c key ttl now d

  pub run-Distinct :
      (c : MemoryCache) (calls : List Call) → Distinct c.items → Distinct (run c calls).items
  unfolding run
  run-Distinct c [] d = d
  run-Distinct c (call ∷ calls) d = run-Distinct (step c call) calls (step-Distinct c call d)
