-- ===== src/Cache/Multi.antt =====
-- pkg/cache/multi.go: the multi-level cache, over any implementation of its levels. The levels are
-- distinct objects: a call on one changes no other.
pub mod View
pub mod Writes
pub mod Batch
pub mod Backfill
pub mod OverMemory
use goupter.Prelude.{
  ℕ, String, Bool, true, false, Option, none, some, List, [], ◌∷◌, ◌++◌, ◌==◌, string_key,
  if◌then◌else◌,
}
use mathlib.Core.Option
use goupter.Prelude.Dict.{lookup, insert}
use goupter.Prelude.Int.{ℤ, pos, negsuc, ltb_ℤ}
use goupter.Cache.Errors.{Error, not_found, is_not_found}
use goupter.Cache.Level.{CacheOps}

-- `lastErr` after a level returned `err`.
abbrev pub last_err : Option Error → Option Error → Option Error
last_err none last = last
last_err (some e) last = some e

-- The inner loop of `MGet`: the result so far, and the keys that stay.
unfoldable pub take_found :
    {Value : Type 0}
    → List (String × Value)
    → List String
    → List (String × Value)
    → List (String × Value) × List String
take_found values [] result = (result, [])
take_found values (key ∷ ks) result = elim (lookup key values) [
  | some v ↦ take_found values ks (insert key v result)
  | none ↦ let (result', left) = take_found values ks result in (result', key ∷ left)
]

-- The loop that calls a method on every level and keeps the last error.
unfoldable pub on_all :
    {S : Type 0} → (S → S × Option Error) → List S → Option Error → List S × Option Error
on_all call [] last = ([], last)
on_all call (level ∷ levels) last =
    let (level', err) = call level in
    let (levels', last') = on_all call levels (last_err err last) in (level' ∷ levels', last')

-- A method that only the last level is asked for; `absent` is the reply with no level at all.
unfoldable pub on_last {ℓ} : {S : Type 0} {R : Type ℓ} → (S → S × R) → R → List S → List S × R
on_last call absent [] = ([], absent)
on_last call absent (level ∷ []) = let (level', r) = call level in (level' ∷ [], r)
on_last call absent (level ∷ next ∷ levels) =
    let (levels', r) = on_last call absent (next ∷ levels) in (level ∷ levels', r)

module _ {Value S : Type 0} (ops : CacheOps Value S) where
  -- The loop over `levels[:i]` that fills them with the value.
  unfoldable pub backfill : List S → String → Value → ℤ → List S
  backfill [] key value ttl = []
  backfill (level ∷ levels) key value ttl =
      (ops.set level key value ttl).0 ∷ backfill levels key value ttl

  -- What `Get` does after a hit: `before` are the levels above, empty where `i` is 0.
  unfoldable pub after_hit : List S → S → String → Value → List S × S
  after_hit [] level key value = ([], level)
  after_hit (first ∷ before) level key value =
      let (level', ttl, _) = ops.ttl level key in
      if ltb_ℤ (pos 0) ttl
      then (backfill (first ∷ before) key value ttl, level')
      else (first ∷ before, level')

  -- The loop of `Get`, with the levels already asked.
  unfoldable pub get_from : List S → List S → String → Value → List S × Value × Option Error
  get_from before [] key dest = (before, dest, some (not_found key))
  get_from before (level ∷ levels) key dest =
      let (level', dest', err) = ops.get level key dest in
      elim err [
        | none ↦
            let (before', level'') = after_hit before level' key dest' in
            (before' ++ level'' ∷ levels, dest', none)
        | some e ↦ get_from (before ++ level' ∷ []) levels key dest'
      ]

  unfoldable pub get : List S → String → Value → List S × Value × Option Error
  get levels key dest = get_from [] levels key dest

  unfoldable pub get_raw : List S → String → List S × List ℕ × Option Error
  get_raw [] key = ([], [], some (not_found key))
  get_raw (level ∷ levels) key =
      let (level', value, err) = ops.get_raw level key in
      let (levels', value', err') = get_raw levels key in
      elim err [
        | none ↦ (level' ∷ levels, value, none)
        | some e ↦
            if is_not_found (some e)
            then (level' ∷ levels', value', err')
            else (level' ∷ levels, [], some e)
      ]

  unfoldable pub set : List S → String → Value → ℤ → List S × Option Error
  set levels key value ttl = on_all (λ level. ops.set level key value ttl) levels none

  unfoldable pub delete : List S → String → List S × Option Error
  delete levels key = on_all (λ level. ops.delete level key) levels none

  unfoldable pub mset : List S → List (String × Value) → ℤ → List S × Option Error
  mset levels items ttl = on_all (λ level. ops.mset level items ttl) levels none

  unfoldable pub mdelete : List S → List String → List S × Option Error
  mdelete levels keys = on_all (λ level. ops.mdelete level keys) levels none

  unfoldable pub expire : List S → String → ℤ → List S × Option Error
  expire levels key ttl = on_all (λ level. ops.expire level key ttl) levels none

  -- A panic of a level leaves the loop.
  close_from : List S → Option Error → Option (List S × Option Error)
  close_from [] last = some ([], last)
  close_from (level ∷ levels) last = elim (ops.close level) [
    | none ↦ none
    | some (level', err) ↦
        Option.map (λ r. (level' ∷ r.0, r.1)) (close_from levels (last_err err last))
  ]

  unfoldable pub close : List S → Option (List S × Option Error)
  unfolding close_from
  close levels = close_from levels none

  unfoldable pub exists : List S → String → List S × Bool
  exists [] key = ([], false)
  exists (level ∷ levels) key =
      let (level', found, err) = ops.exists level key in
      let (levels', found') = exists levels key in
      elim err [
        | none ↦ if found then (level' ∷ levels, true) else (level' ∷ levels', found')
        | some e ↦ (level' ∷ levels', found')
      ]

  unfoldable pub ping : List S → List S × Option Error
  ping [] = ([], none)
  ping (level ∷ levels) =
      let (level', err) = ops.ping level in
      let (levels', err') = ping levels in
      elim err [ none ↦ (level' ∷ levels', err') | some e ↦ (level' ∷ levels, some e) ]

  unfoldable pub mget_from :
      List S → List String → List (String × Value) → List S × List (String × Value)
  mget_from [] ks result = ([], result)
  mget_from (level ∷ levels) [] result = (level ∷ levels, result)
  mget_from (level ∷ levels) (key ∷ ks) result =
      let (level', values, err) = ops.mget level (key ∷ ks) in
      elim err [
        | some e ↦
            let (levels', result') = mget_from levels (key ∷ ks) result in
            (level' ∷ levels', result')
        | none ↦
            let (result', left) = take_found values (key ∷ ks) result in
            let (levels', result'') = mget_from levels left result' in (level' ∷ levels', result'')
      ]

  unfoldable pub mget : List S → List String → List S × List (String × Value)
  mget levels ks = mget_from levels ks []

  unfoldable pub incr : List S → String → List S × (ℤ × Option Error)
  incr levels key =
      on_last (λ level. let (level', n, err) = ops.incr level key in (level', (n, err)))
        (pos 0, none) levels

  unfoldable pub incr_by : List S → String → ℤ → List S × (ℤ × Option Error)
  incr_by levels key value =
      on_last (λ level. let (level', n, err) = ops.incr_by level key value in (level', (n, err)))
        (pos 0, none) levels

  unfoldable pub decr : List S → String → List S × (ℤ × Option Error)
  decr levels key =
      on_last (λ level. let (level', n, err) = ops.decr level key in (level', (n, err)))
        (pos 0, none) levels

  unfoldable pub decr_by : List S → String → ℤ → List S × (ℤ × Option Error)
  decr_by levels key value =
      on_last (λ level. let (level', n, err) = ops.decr_by level key value in (level', (n, err)))
        (pos 0, none) levels

  unfoldable pub ttl : List S → String → List S × (ℤ × Option Error)
  ttl levels key =
      on_last (λ level. let (level', t, err) = ops.ttl level key in (level', (t, err)))
        (negsuc 1, none) levels

  unfoldable pub keys : List S → String → List S × (List String × Option Error)
  keys levels pattern =
      on_last (λ level. let (level', ks, err) = ops.keys level pattern in (level', (ks, err)))
        ([], none) levels

  -- `set_nx` on the last level; if it is done there, `set` on each of the others.
  unfoldable pub set_nx : List S → String → Value → ℤ → List S × Bool × Option Error
  set_nx [] key value ttl = ([], false, none)
  set_nx (level ∷ []) key value ttl =
      let (level', done, err) = ops.set_nx level key value ttl in
      elim err [ none ↦ (level' ∷ [], done, none) | some e ↦ (level' ∷ [], false, some e) ]
  set_nx (level ∷ next ∷ levels) key value ttl =
      let (levels', done, err) = set_nx (next ∷ levels) key value ttl in
      if done
      then ((ops.set level key value ttl).0 ∷ levels', done, err)
      else (level ∷ levels', done, err)
