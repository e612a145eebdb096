-- ===== src/Cache/Multi/OverMemory.antt =====
-- The multi-level cache of pkg/cache/multi.go over memory caches of pkg/cache/memory.go.
use goupter.Prelude.{
  ℕ, String, ◌≡◌, Option, none, some, List, [], ◌∷◌, ◌==◌, string_key, arith, false, true, refl,
  ◌∙◌, inl, inr, Bool, ◌&&◌, Bool-cases, if◌then◌else◌,
}
use goupter.Prelude.Int.{ℤ}
use goupter.Cache.Errors.{Error, not_found}
use goupter.Cache.Json.{Json, Marshalled}
use goupter.Cache.Memory.AsLevel.{
  MemoryLevel, elapse_all, memory_ops, memory_IsCache, is_over, over_all, memory_set_view,
  memory_set_later,
}
use goupter.Cache.Multi.{get_raw, set, delete, on_all, last_err}
use goupter.Cache.Multi.View.{
  first_some, raw_of, view_all, get_raw-view_all, view_all-delete, on_all_view,
}

module _ (json : Json) where
  open json use {Value, marshal}

  abbrev pub reply_of : List MemoryLevel × List ℕ × Option Error → List ℕ × Option Error
  reply_of r = (r.1, r.2)

  abbrev seen_in : List MemoryLevel → String → Option (List ℕ)
  seen_in levels j = view_all json (memory_ops json) (memory_IsCache json) levels j

  -- `Set` on a level.
  abbrev set_on : String → Value → ℤ → MemoryLevel → MemoryLevel × Option Error
  set_on key v ttl level = (memory_ops json).set level key v ttl

  seen_other :
      (spans : List ℕ) (levels : List MemoryLevel) (key j : String) (v : Value) (ttl : ℤ)
      (bytes : List ℕ) (last : Option Error)
      → marshal v ≡ Marshalled.ok bytes
      → (key == j) ≡ false
      → seen_in (elapse_all spans (on_all (set_on key v ttl) levels last).0) j
        ≡ seen_in (elapse_all spans levels) j
  unfolding elapse_all on_all view_all
  seen_other [] levels key j v ttl bytes last m other =
      on_all_view json (memory_ops json) (memory_IsCache json) (set_on key v ttl) levels j last
        (λ l. memory_set_view json l key v ttl bytes j m ∙ rw other refl)
  seen_other (span ∷ spans) [] key j v ttl bytes last m other = refl
  seen_other (span ∷ spans) (level ∷ levels) key j v ttl bytes last m other =
      rw
        (
          memory_set_later json level key v ttl bytes j span m,
          other,
          seen_other spans levels key j v ttl bytes (last_err (set_on key v ttl level).1 last) m
              other,
        )
        refl

  seen_here :
      (spans : List ℕ) (levels : List MemoryLevel) (key j : String) (v : Value) (ttl : ℤ)
      (bytes : List ℕ) (last : Option Error)
      → marshal v ≡ Marshalled.ok bytes
      → (key == j) ≡ true
      → seen_in (elapse_all spans (on_all (set_on key v ttl) levels last).0) j
        ≡ (if over_all ttl spans levels then none else some bytes)
  unfolding elapse_all on_all view_all over_all
  seen_here [] [] key j v ttl bytes last m here = refl
  seen_here (span ∷ spans) [] key j v ttl bytes last m here = refl
  seen_here [] (level ∷ levels) key j v ttl bytes last m here =
      rw (memory_set_view json level key v ttl bytes j m, here) refl
  seen_here (span ∷ spans) (level ∷ levels) key j v ttl bytes last m here =
      rw
        (
          memory_set_later json level key v ttl bytes j span m,
          here,
          seen_here spans levels key j v ttl bytes (last_err (set_on key v ttl level).1 last) m
              here,
        )
        (first_of (is_over ttl span) (over_all ttl spans levels))
    where
      first_of :
          (a b : Bool)
          → first_some (if a then none else some bytes) (if b then none else some bytes)
            ≡ (if a && b then none else some bytes)
      first_of true b = refl
      first_of false b = refl

  -- Over memory caches, whatever each of them holds, and however much time passes on each level between
  -- the calls: after a `Set` that encodes, `GetRaw` of the key returns the new bytes, until its time to
  -- live, if that is positive, is over on every level, and misses then; `GetRaw` of any other key
  -- returns what it would return at that time without the `Set`.
  pub get_raw-set_levels :
      (level : MemoryLevel) (levels : List MemoryLevel) (key j : String) (v : Value) (ttl : ℤ)
      (bytes : List ℕ) (spans : List ℕ)
      → marshal v ≡ Marshalled.ok bytes
      → reply_of (
          get_raw
            (memory_ops json)
            (elapse_all spans (set (memory_ops json) (level ∷ levels) key v ttl).0)
            j)
        ≡ (if key == j
            then (if over_all ttl spans (level ∷ levels)
                then ([], some (not_found j))
                else (bytes, none))
            else reply_of (get_raw (memory_ops json) (elapse_all spans (level ∷ levels)) j))
  unfolding set
  get_raw-set_levels level levels key j v ttl bytes spans m = elim (Bool-cases (key == j)) [
    | inl here ↦
        rw
          (
            here,
            get_raw-view_all json (memory_ops json) (memory_IsCache json)
                (elapse_all spans (on_all (set_on key v ttl) (level ∷ levels) none).0) j,
            seen_here spans (level ∷ levels) key j v ttl bytes none m here,
          )
          (answered (over_all ttl spans (level ∷ levels)))
    | inr other ↦
        rw
          (
            other,
            get_raw-view_all json (memory_ops json) (memory_IsCache json)
                (elapse_all spans (on_all (set_on key v ttl) (level ∷ levels) none).0) j,
            get_raw-view_all json (memory_ops json) (memory_IsCache json)
                (elapse_all spans (level ∷ levels)) j,
            seen_other spans (level ∷ levels) key j v ttl bytes none m other,
          )
          refl
  ]
    where
      answered :
          (over : Bool)
          → raw_of j (if over then none else some bytes)
            ≡ (if over then ([], some (not_found j)) else (bytes, none))
      answered true = refl
      answered false = refl

  -- After a `Delete`, `GetRaw` of the key misses on every level.
  pub get_raw-delete_levels :
      (levels : List MemoryLevel) (key j : String)
      → reply_of (get_raw (memory_ops json) (delete (memory_ops json) levels key).0 j) ≡ (
          if key == j
          then ([], some (not_found j))
          else reply_of (get_raw (memory_ops json) levels j))
  get_raw-delete_levels levels key j = ground (
    arith,
    get_raw-view_all json (memory_ops json) (memory_IsCache json)
        (delete (memory_ops json) levels key).0 j,
    get_raw-view_all json (memory_ops json) (memory_IsCache json) levels j,
    view_all-delete json (memory_ops json) (memory_IsCache json) levels key j,
  )
