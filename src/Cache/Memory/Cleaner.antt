-- ===== src/Cache/Memory/Cleaner.antt =====
-- The background cleaner of pkg/cache/memory.go against a cache that is never cleaned.
use goupter.Prelude.{
  ℕ, String, ◌≡◌, refl, ◌∙◌, Option, none, some, List, [], ◌∷◌, string_key, arith, Option-cases,
  inl, inr,
}
use goupter.Prelude.Dict.{lookup, Distinct}
use goupter.Prelude.Int.{ℤ, ◌+ℤ◌, ◌≤ℤ◌}
use goupter.Cache.Json.{Json, Marshalled-cases}
use goupter.Cache.Memory.{
  MemoryCache, Item, delete_key, mdelete, expire, set, mset, incr_by, current, set_nx, live, put,
  expiry,
}
use goupter.Cache.Memory.Calls.{
  Call, tick, sets, deletes, mdeletes, msets, incr_bys, set_nxs, expires, step, run, step-Distinct,
}
use goupter.Cache.Memory.Reads.{live-put, live-delete_key, live-mdelete, live-cleanup}

-- From `t` on, the two caches answer every read alike.
abbrev pub Agree : ℤ → MemoryCache → MemoryCache → Type 0
Agree t c d = (key : String) (later : ℤ) → t ≤ℤ later → live c key later ≡ live d key later

Agree-mono : (t u : ℤ) (c d : MemoryCache) → t ≤ℤ u → Agree t c d → Agree u c d
Agree-mono t u c d h a = λ key later l. a key later (omega arith)

put-Agree :
    (t : ℤ) (c d : MemoryCache) (key : String) (bytes : List ℕ) (x : Option ℤ)
    → Agree t c d
    → Agree t (put c key bytes x) (put d key bytes x)
put-Agree t c d key bytes x a = λ j later l.
    ground (arith, live-put c key j bytes x later, live-put d key j bytes x later, a j later l)

mdelete-Agree :
    (t : ℤ) (c d : MemoryCache) (ks : List String)
    → Agree t c d
    → Agree t (mdelete c ks) (mdelete d ks)
mdelete-Agree t c d ks a =
    λ j later l. ground (arith, live-mdelete c ks j later, live-mdelete d ks j later, a j later l)

delete_key-Agree :
    (t : ℤ) (c d : MemoryCache) (key : String)
    → Agree t c d
    → Agree t (delete_key c key) (delete_key d key)
delete_key-Agree t c d key a = λ j later l.
    ground (arith, live-delete_key c key j later, live-delete_key d key j later, a j later l)

-- A key that a reader sees is in the map, as it is seen.
pub lookup_of_live :
    (c : MemoryCache) (key : String) (now : ℤ) {item : Item}
    → live c key now ≡ some item
    → lookup key c.items ≡ some item
unfolding live
lookup_of_live c key now h = ground arith

expire-Agree :
    (t : ℤ) (c d : MemoryCache) (key : String) (ttl now : ℤ) {item : Item}
    → t ≤ℤ now
    → live d key now ≡ some item
    → Agree t c d
    → Agree t (expire c key ttl now) (expire d key ttl now)
unfolding expire
expire-Agree t c d key ttl now {item} l h a =
    rw (lookup_of_live d key now h, lookup_of_live c key now (a key now l ∙ h), expire)
      (put-Agree t c d key item.value (some (now +ℤ ttl)) a)

module _ (json : Json) where
  open json use {Value, marshal, unmarshal_int}

  set-Agree :
      (t : ℤ) (c d : MemoryCache) (key : String) (v : Value) (ttl now : ℤ)
      → Agree t c d
      → Agree t (set json c key v ttl now).0 (set json d key v ttl now).0
  unfolding set
  set-Agree t c d key v ttl now a = elim (Marshalled-cases (marshal v)) [
    | inl (bytes, e) ↦ rw (e, set) (put-Agree t c d key bytes (expiry ttl now) a)
    | inr (x, e) ↦ rw (e, set) a
  ]

  mset-Agree :
      (t : ℤ) (c d : MemoryCache) (items : List (String × Value)) (ttl : ℤ) (now : String → ℤ)
      → Agree t c d
      → Agree t (mset json c items ttl now).0 (mset json d items ttl now).0
  unfolding mset
  mset-Agree t c d [] ttl now a = a
  mset-Agree t c d ((key, v) ∷ items) ttl now a = elim (Marshalled-cases (marshal v)) [
    | inl (bytes, e) ↦
        rw (e, mset)
          (mset-Agree t (put c key bytes (expiry ttl (now key)))
            (put d key bytes (expiry ttl (now key))) items ttl now
            (put-Agree t c d key bytes (expiry ttl (now key)) a))
    | inr (x, e) ↦ rw (e, mset) a
  ]

  set_nx-Agree :
      (t : ℤ) (c d : MemoryCache) (key : String) (v : Value) (ttl now later : ℤ)
      → t ≤ℤ now
      → Agree t c d
      → Agree t (set_nx json c key v ttl now later).0 (set_nx json d key v ttl now later).0
  unfolding set_nx
  set_nx-Agree t c d key v ttl now later l a = elim (Option-cases (live d key now)) [
    | inr (item, h) ↦ rw (h, a key now l ∙ h, set_nx) a
    | inl h ↦ elim (Marshalled-cases (marshal v)) [
      | inl (bytes, e) ↦
          rw (h, a key now l ∙ h, set_nx, e) (put-Agree t c d key bytes (expiry ttl later) a)
      | inr (x, e) ↦ rw (h, a key now l ∙ h, set_nx, e) a
    ]
  ]

  incr_by-Agree :
      (t : ℤ) (c d : MemoryCache) (key : String) (n now : ℤ)
      → t ≤ℤ now
      → Agree t c d
      → Agree t (incr_by json c key n now).0 (incr_by json d key n now).0
  unfolding incr_by current
  incr_by-Agree t c d key n now l a = rw (a key now l, current) (put-Agree t c d key _ none a)

  -- The readings of the clock in a call lie at or after `t`, and an `expires` finds its key live.
  abbrev pub Timely : ℤ → MemoryCache → Call json → Type 0
  Timely t c (tick now) = Unit
  Timely t c (sets key v ttl now) = Unit
  Timely t c (deletes key) = Unit
  Timely t c (mdeletes ks) = Unit
  Timely t c (msets items ttl now) = Unit
  Timely t c (incr_bys key n now) = t ≤ℤ now
  Timely t c (set_nxs key v ttl now later) = t ≤ℤ now
  Timely t c (expires key ttl now) = (t ≤ℤ now) × (item : Item) × (live c key now ≡ some item)

  -- A call, with a time that is not before any of the cleaner's readings in it.
  abbrev pub Before : Call json → ℤ → Type 0
  Before (tick now) u = (key : String) → now key ≤ℤ u
  Before (sets key v ttl now) u = Unit
  Before (deletes key) u = Unit
  Before (mdeletes ks) u = Unit
  Before (msets items ttl now) u = Unit
  Before (incr_bys key n now) u = Unit
  Before (set_nxs key v ttl now later) u = Unit
  Before (expires key ttl now) u = Unit

  -- The same call on the cache without the cleaner.
  abbrev pub step_uncleaned : MemoryCache → Call json → MemoryCache
  step_uncleaned d (tick now) = d
  step_uncleaned d call = step json d call

  step-Agree :
      (t u : ℤ) (c d : MemoryCache) (call : Call json)
      → Distinct c.items
      → t ≤ℤ u
      → Timely t d call
      → Before call u
      → Agree t c d
      → Agree u (step json c call) (step_uncleaned d call)
  unfolding step
  step-Agree t u c d (tick now) v l ok b a = λ key later m.
      live-cleanup c now key later v (omega (arith, b key)) ∙ a key later (omega arith)
  step-Agree t u c d (sets key v ttl now) _ l ok b a =
      Agree-mono t u _ _ l (set-Agree t c d key v ttl now a)
  step-Agree t u c d (deletes key) v l ok b a = Agree-mono t u _ _ l (delete_key-Agree t c d key a)
  step-Agree t u c d (mdeletes ks) v l ok b a = Agree-mono t u _ _ l (mdelete-Agree t c d ks a)
  step-Agree t u c d (msets items ttl now) v l ok b a =
      Agree-mono t u _ _ l (mset-Agree t c d items ttl now a)
  step-Agree t u c d (incr_bys key n now) v l ok b a =
      Agree-mono t u _ _ l (incr_by-Agree t c d key n now ok a)
  step-Agree t u c d (set_nxs key v ttl now later) _ l ok b a =
      Agree-mono t u _ _ l (set_nx-Agree t c d key v ttl now later ok a)
  step-Agree t u c d (expires key ttl now) v l ok b a =
      Agree-mono t u _ _ l (expire-Agree t c d key ttl now ok.0 ok.2 a)

  -- A history: each call with a time that its readings of the clock do not pass.
  abbrev pub History : Type 0
  History = List (ℤ × Call json)

  abbrev pub calls_of : History → List (Call json)
  calls_of [] = []
  calls_of ((u, call) ∷ h) = call ∷ calls_of h

  abbrev pub end_of : ℤ → History → ℤ
  end_of t [] = t
  end_of t ((u, call) ∷ h) = end_of u h

  -- Time does not run backwards, and an `expires` finds its key live.
  abbrev pub IsOrdered : ℤ → MemoryCache → History → Type 0
  IsOrdered t d [] = Unit
  IsOrdered t d ((u, call) ∷ h) =
      (t ≤ℤ u) × Timely t d call × Before call u × IsOrdered u (step_uncleaned d call) h

  pub run_uncleaned : MemoryCache → History → MemoryCache
  run_uncleaned d [] = d
  run_uncleaned d ((u, call) ∷ h) = run_uncleaned (step_uncleaned d call) h

  run-Agree :
      (t : ℤ) (c d : MemoryCache) (h : History)
      → Distinct c.items
      → IsOrdered t d h
      → Agree t c d
      → Agree (end_of t h) (run json c (calls_of h)) (run_uncleaned d h)
  unfolding run run_uncleaned
  run-Agree t c d [] v o a = a
  run-Agree t c d ((u, call) ∷ h) v o a =
      run-Agree u (step json c call) (step_uncleaned d call) h (step-Distinct json c call v) o.3
        (step-Agree t u c d call v o.0 o.1 o.2 a)

  -- Over any history in which time does not run backwards and `Expire` is called on live keys only,
  -- a read at the end answers as if the cleaner had never run.
  pub run-run_uncleaned :
      (t : ℤ) (c : MemoryCache) (h : History) (key : String) (later : ℤ)
      → Distinct c.items
      → IsOrdered t c h
      → end_of t h ≤ℤ later
      → live (run json c (calls_of h)) key later ≡ live (run_uncleaned c h) key later
  run-run_uncleaned t c h key later v o l = run-Agree t c c h v o (λ k m _. refl) key later l
