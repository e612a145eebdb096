-- ===== src/Cache/Level.antt =====
-- pkg/cache/cache.go: the interface `Cache`, as the operations on the state of an implementation.
-- A call returns the new state beside its results; what the clock and a server do meanwhile is
-- part of the state.
use goupter.Prelude.{
  ℕ, String, ◌≡◌, Bool, true, Option, none, some, List, [], ◌==◌, string_key, if◌then◌else◌,
}
use goupter.Prelude.Int.{ℤ}
use goupter.Cache.Errors.{Error, is_not_found}
use goupter.Cache.Json.{Json, Marshalled}

pub record CacheOps (Value S : Type 0) : Type 0 where
  -- The destination before and after.
  pub get : S → String → Value → S × Value × Option Error
  pub get_raw : S → String → S × List ℕ × Option Error
  pub set : S → String → Value → ℤ → S × Option Error
  pub delete : S → String → S × Option Error
  pub exists : S → String → S × Bool × Option Error
  pub mget : S → List String → S × List (String × Value) × Option Error
  pub mset : S → List (String × Value) → ℤ → S × Option Error
  pub mdelete : S → List String → S × Option Error
  pub incr : S → String → S × ℤ × Option Error
  pub incr_by : S → String → ℤ → S × ℤ × Option Error
  pub decr : S → String → S × ℤ × Option Error
  pub decr_by : S → String → ℤ → S × ℤ × Option Error
  pub set_nx : S → String → Value → ℤ → S × Bool × Option Error
  pub expire : S → String → ℤ → S × Option Error
  pub ttl : S → String → S × ℤ × Option Error
  pub keys : S → String → S × List String × Option Error
  -- `none` is a panic.
  pub close : S → Option (S × Option Error)
  pub ping : S → S × Option Error

-- What the interface's comments promise of a level that works, at one moment: reads change
-- nothing and answer from `view`, writes change `view` at their key alone.
pub record IsCache (json : Json) {S : Type 0} (ops : CacheOps json.Value S) : Type 0 where
  pub view : S → String → Option (List ℕ)
  pub get_raw_hit :
      (s : S) (key : String) (bytes : List ℕ)
      → view s key ≡ some bytes
      → ops.get_raw s key ≡ (s, bytes, none)
  pub get_raw_miss :
      (s : S) (key : String)
      → view s key ≡ none
      → (e : Error) × (ops.get_raw s key ≡ (s, [], some e)) × (is_not_found (some e) ≡ true)
  pub set_ok :
      (s : S) (key : String) (v : json.Value) (ttl : ℤ) (bytes : List ℕ)
      → json.marshal v ≡ Marshalled.ok bytes
      → (ops.set s key v ttl).1 ≡ none
  pub set_view :
      (s : S) (key : String) (v : json.Value) (ttl : ℤ) (bytes : List ℕ) (j : String)
      → json.marshal v ≡ Marshalled.ok bytes
      → view (ops.set s key v ttl).0 j ≡ (if key == j then some bytes else view s j)
  pub set_err :
      (s : S) (key : String) (v : json.Value) (ttl : ℤ) (e : Error)
      → json.marshal v ≡ Marshalled.err e
      → ops.set s key v ttl ≡ (s, some e)
  pub delete_ok : (s : S) (key : String) → (ops.delete s key).1 ≡ none
  pub delete_view :
      (s : S) (key j : String) → view (ops.delete s key).0 j ≡ (if key == j then none else view s j)
