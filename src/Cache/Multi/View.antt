-- ===== src/Cache/Multi/View.antt =====
-- The multi-level cache of pkg/cache/multi.go as one cache: the first level that has a key counts.
use goupter.Prelude.{
  ℕ, String, ◌≡◌, refl, ◌∙◌, true, Option, none, some, List, [], ◌∷◌, ◌==◌, string_key, arith,
  if◌then◌else◌, Option-cases, Bool-cases, inl, inr,
}
use goupter.Prelude.Int.{ℤ}
use goupter.Cache.Errors.{Error, not_found}
use goupter.Cache.Json.{Json, Marshalled}
use goupter.Cache.Level.{CacheOps, IsCache}
use goupter.Cache.Multi.{get_raw, on_all, set, delete, on_last, incr_by, last_err}

abbrev pub first_some : Option (List ℕ) → Option (List ℕ) → Option (List ℕ)
first_some none r = r
first_some (some b) r = some b

abbrev pub raw_of : String → Option (List ℕ) → List ℕ × Option Error
raw_of key none = ([], some (not_found key))
raw_of key (some b) = (b, none)

module _ (json : Json) {S : Type 0} (ops : CacheOps json.Value S) (laws : IsCache json ops) where
  open json use {Value, marshal}
  open laws use {view}

  unfoldable pub view_all : List S → String → Option (List ℕ)
  view_all [] key = none
  view_all (level ∷ levels) key = first_some (view level key) (view_all levels key)

  -- `GetRaw` changes nothing and returns what the first level that has the key holds; it misses
  -- exactly when no level has the key.
  pub get_raw-view_all :
      (levels : List S) (key : String)
      → get_raw ops levels key
        ≡ (levels, (raw_of key (view_all levels key)).0, (raw_of key (view_all levels key)).1)
  unfolding get_raw view_all
  get_raw-view_all [] key = refl
  get_raw-view_all (level ∷ levels) key = elim (Option-cases (view level key)) [
    | inr (b, h) ↦ ground (arith, laws.get_raw_hit level key b h)
    | inl h ↦ ground (arith, laws.get_raw_miss level key h, get_raw-view_all levels key)
  ]

  -- The last error of calls that all succeed.
  on_all_ok :
      (call : S → S × Option Error) (levels : List S)
      → ((level : S) → (call level).1 ≡ none)
      → (on_all call levels none).1 ≡ none
  unfolding on_all
  on_all_ok call [] ok = refl
  on_all_ok call (level ∷ levels) ok = rw (ok level) (on_all_ok call levels ok)

  -- Calls that keep a level's view of a key keep the whole view of it, also the error aside.
  pub on_all_view :
      (call : S → S × Option Error) (levels : List S) (j : String) (last : Option Error)
      → ((level : S) → view (call level).0 j ≡ view level j)
      → view_all (on_all call levels last).0 j ≡ view_all levels j
  unfolding on_all view_all
  on_all_view call [] j last same = refl
  on_all_view call (level ∷ levels) j last same =
      rw (same level, on_all_view call levels j (last_err (call level).1 last) same)

  on_all_gone :
      (call : S → S × Option Error) (levels : List S) (j : String) (last : Option Error)
      → ((level : S) → view (call level).0 j ≡ none)
      → view_all (on_all call levels last).0 j ≡ none
  unfolding on_all view_all
  on_all_gone call [] j last gone = refl
  on_all_gone call (level ∷ levels) j last gone =
      rw (gone level) (on_all_gone call levels j (last_err (call level).1 last) gone)

  -- After a `Set` of a value that encodes, on at least one level: no error, the key holds the new
  -- bytes, and every other key holds what it held.
  pub view_all-set :
      (level : S) (levels : List S) (key j : String) (v : Value) (ttl : ℤ) (bytes : List ℕ)
      → marshal v ≡ Marshalled.ok bytes
      → ((set ops (level ∷ levels) key v ttl).1 ≡ none)
        × (view_all (set ops (level ∷ levels) key v ttl).0 j
            ≡ (if key == j then some bytes else view_all (level ∷ levels) j))
  unfolding set
  view_all-set level levels key j v ttl bytes m = (
    on_all_ok (λ l. ops.set l key v ttl) (level ∷ levels) (λ l. laws.set_ok l key v ttl bytes m),
    elim (Bool-cases (key == j)) [
      | inl here ↦ rw here (at_head here)
      | inr other ↦ rw other (
          on_all_view (λ l. ops.set l key v ttl) (level ∷ levels) j none
            (λ l. laws.set_view l key v ttl bytes j m ∙ rw other))
    ],
  )
    where
      at_head :
          (key == j) ≡ true
          → view_all (on_all (λ l. ops.set l key v ttl) (level ∷ levels) none).0 j ≡ some bytes
      at_head here = unfold on_all view_all in rw (laws.set_view level key v ttl bytes j m, here)

  set_fails :
      (levels : List S) (key : String) (v : Value) (ttl : ℤ) (e : Error) (last : Option Error)
      → marshal v ≡ Marshalled.err e
      → (on_all (λ l. ops.set l key v ttl) levels last).0 ≡ levels
  unfolding on_all
  set_fails [] key v ttl e last m = refl
  set_fails (level ∷ levels) key v ttl e last m =
      rw (laws.set_err level key v ttl e m, set_fails levels key v ttl e (some e) m)

  -- After a `Delete` no level has the key, and every other key holds what it held.
  pub view_all-delete :
      (levels : List S) (key j : String)
      → ((delete ops levels key).1 ≡ none)
        × (view_all (delete ops levels key).0 j ≡ (if key == j then none else view_all levels j))
  unfolding delete
  view_all-delete levels key j = (
    on_all_ok (λ l. ops.delete l key) levels (λ l. laws.delete_ok l key),
    elim (Bool-cases (key == j)) [
      | inl here ↦ rw here (
          on_all_gone (λ l. ops.delete l key) levels j none
            (λ l. laws.delete_view l key j ∙ rw here))
      | inr other ↦ rw other (
          on_all_view (λ l. ops.delete l key) levels j none
            (λ l. laws.delete_view l key j ∙ rw other))
    ],
  )

  -- A counter is kept on the last level only, so a level above it goes stale: while the first of
  -- two or more levels holds the key, `GetRaw` returns what it held before the `IncrBy`.
  pub get_raw-incr_by_stale :
      (level next : S) (levels : List S) (key : String) (n : ℤ) (bytes : List ℕ)
      → view level key ≡ some bytes
      → (get_raw ops (incr_by ops (level ∷ next ∷ levels) key n).0 key).1 ≡ bytes
  unfolding incr_by on_last get_raw
  get_raw-incr_by_stale level next levels key n bytes h =
      ground (arith, laws.get_raw_hit level key bytes h)
