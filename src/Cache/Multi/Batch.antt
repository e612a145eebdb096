-- ===== src/Cache/Multi/Batch.antt =====
-- `MGet` of pkg/cache/multi.go: the levels are asked in turn for the keys still missing.
use goupter.Prelude.{
  String, ◌≡◌, refl, ◌∙◌, ◌&&◌, Option, none, some, List, [], ◌∷◌, string_key, arith, is_none,
  if◌then◌else◌, Option-cases, inl, inr,
}
use goupter.Prelude.Dict.{lookup, insert, lookup-insert}
use goupter.Cache.Level.{CacheOps}
use goupter.Cache.Memory.Reads.{listed}
use goupter.Cache.Multi.{take_found, mget_from, mget}

-- What the interface promises of `MGet` on a level that works: the values of the listed keys that
-- the level has, and nothing else.
pub record IsBatch {Value S : Type 0} (ops : CacheOps Value S) : Type 0 where
  pub value_at : S → String → Option Value
  pub mget_lem :
      (s : S) (ks : List String)
      → (values : List (String × Value)) × (ops.mget s ks ≡ (s, values, none))
        × ((j : String) → lookup j values ≡ (if listed j ks then value_at s j else none))

module _ {Value : Type 0} where
  abbrev pub or_else : Option Value → Option Value → Option Value
  or_else none r = r
  or_else (some v) r = some v

  -- One round of the loop with the value found, or not, for the key.
  lookup-take_found :
      (values : List (String × Value)) (ks : List String) (result : List (String × Value))
      (j : String)
      → lookup j (take_found values ks result).0
        ≡ (if listed j ks then or_else (lookup j values) (lookup j result) else lookup j result)
  unfolding take_found
  lookup-take_found values [] result j = refl
  lookup-take_found values (key ∷ ks) result j = elim (Option-cases (lookup key values)) [
    | inl h ↦ ground (arith, string_key.same_iff key j, lookup-take_found values ks result j)
    | inr (v, h) ↦ ground (
      arith,
      string_key.same_iff key j,
      lookup-insert key j v result,
      lookup-take_found values ks (insert key v result) j,
    )
  ]

  listed-take_found :
      (values : List (String × Value)) (ks : List String) (result : List (String × Value))
      (j : String)
      → listed j (take_found values ks result).1 ≡ (listed j ks && is_none (lookup j values))
  unfolding take_found
  listed-take_found values [] result j = refl
  listed-take_found values (key ∷ ks) result j = elim (Option-cases (lookup key values)) [
    | inl h ↦ ground (arith, string_key.same_iff key j, listed-take_found values ks result j)
    | inr (v, h) ↦
        ground
          (arith, string_key.same_iff key j, listed-take_found values ks (insert key v result) j)
  ]

module _ {Value S : Type 0} (ops : CacheOps Value S) (laws : IsBatch ops) where
  open laws use {value_at}

  -- The value at the first level that has the key.
  abbrev pub first_value : List S → String → Option Value
  first_value [] key = none
  first_value (level ∷ levels) key = or_else (value_at level key) (first_value levels key)

  lookup-mget_from :
      (levels : List S) (ks : List String) (result : List (String × Value)) (j : String)
      → lookup j (mget_from ops levels ks result).1 ≡ (
          if listed j ks then or_else (first_value levels j) (lookup j result) else lookup j result)
  unfolding mget_from
  lookup-mget_from [] ks result j = ground arith
  lookup-mget_from (level ∷ levels) [] result j = refl
  lookup-mget_from (level ∷ levels) (key ∷ ks) result j =
      let (values, e, at) = laws.mget_lem level (key ∷ ks) in
      rw (e, mget_from, e)
        (ground (
          arith,
          at j,
          lookup-take_found values (key ∷ ks) result j,
          listed-take_found values (key ∷ ks) result j,
          lookup-mget_from levels (take_found values (key ∷ ks) result).1
              (take_found values (key ∷ ks) result).0 j,
        ))

  -- `MGet` returns exactly the listed keys that some level has, each with the value of the first
  -- level that has it.
  pub lookup-mget_levels :
      (levels : List S) (ks : List String) (j : String)
      → lookup j (mget ops levels ks).1 ≡ (if listed j ks then first_value levels j else none)
  unfolding mget
  lookup-mget_levels levels ks j =
      lookup-mget_from levels ks [] j ∙ nothing_before (first_value levels j)
    where
      nothing_before :
          (v : Option Value)
          → (if listed j ks then or_else v (lookup j []) else lookup j [])
            ≡ (if listed j ks then v else none)
      nothing_before v = unfold lookup in ground arith
