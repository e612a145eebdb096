-- ===== src/Cache/Multi/Backfill.antt =====
-- `Get` of pkg/cache/multi.go: the search through the levels, and what a hit writes back.
use goupter.Prelude.{
  String, ◌≡◌, refl, sym, ap, ◌∙◌, Option, none, some, List, [], ◌∷◌, ◌++◌, map, arith, All,
  if◌then◌else◌,
}
use mathlib.Core.List.{append_assoc, append-nil}
use goupter.Prelude.Int.{ℤ, pos, ltb_ℤ}
use goupter.Cache.Errors.{Error, not_found}
use goupter.Cache.Level.{CacheOps}
use goupter.Cache.Multi.{backfill, after_hit, get_from, get}

module _ {Value S : Type 0} (ops : CacheOps Value S) (key : String) (dest : Value) where
  -- The level fails on the key, changing neither itself nor the destination.
  abbrev pub Misses : S → Type 0
  Misses level = (e : Error) × (ops.get level key dest ≡ (level, dest, some e))

  -- A level after a write of `value` back to it.
  abbrev pub written : Value → ℤ → S → S
  written value ttl level = (ops.set level key value ttl).0

  backfill-map :
      (levels : List S) (value : Value) (ttl : ℤ)
      → backfill ops levels key value ttl ≡ map (written value ttl) levels
  unfolding backfill
  backfill-map [] value ttl = refl
  backfill-map (level ∷ levels) value ttl =
      ap (◌∷◌ (written value ttl level)) (backfill-map levels value ttl)

  -- Levels that miss are passed over.
  get_from-Misses :
      (seen misses rest : List S)
      → All Misses misses
      → get_from ops seen (misses ++ rest) key dest ≡ get_from ops (seen ++ misses) rest key dest
  unfolding get_from
  get_from-Misses seen [] rest m = rw append-nil
  get_from-Misses seen (level ∷ misses) rest m =
      rw (m.0.1, get_from, m.0.1)
        (get_from-Misses (seen ++ level ∷ []) misses rest m.1
          ∙ ap (λ s. get_from ops s rest key dest) (append_assoc seen (level ∷ []) misses))

  -- If every level misses, `Get` reports the key as missing and changes nothing.
  pub get-Misses :
      (levels : List S)
      → All Misses levels
      → get ops levels key dest ≡ (levels, dest, some (not_found key))
  unfolding get
  get-Misses levels m =
      ap (λ ls. get_from ops [] ls key dest) (sym (append-nil levels))
      ∙ get_from-Misses [] levels [] m
      ∙ end
    where
      end : get_from ops ([] ++ levels) [] key dest ≡ (levels, dest, some (not_found key))
      end = unfold get_from in refl

  hit_from :
      (seen : List S) (level level' : S) (rest : List S) (value : Value)
      → ops.get level key dest ≡ (level', value, none)
      → get_from ops seen (level ∷ rest) key dest ≡ (
        (after_hit ops seen level' key value).0 ++ (after_hit ops seen level' key value).1 ∷ rest,
        value,
        none,
      )
  unfolding get_from
  hit_from seen level level' rest value hit = ground arith

  after_hit_below :
      (first level' level'' : S) (before : List S) (value : Value) (ttl : ℤ) (err : Option Error)
      → ops.ttl level' key ≡ (level'', ttl, err)
      → after_hit ops (first ∷ before) level' key value ≡ (
        if ltb_ℤ (pos 0) ttl then map (written value ttl) (first ∷ before) else first ∷ before,
        level'',
      )
  unfolding after_hit
  after_hit_below first level' level'' before value ttl err left =
      ground (arith, backfill-map (first ∷ before) value ttl)

  -- A hit below the first level: the value is returned without an error, the levels below are not
  -- asked, and each level above gets the value with the time to live that is left, if that is
  -- positive; else (a key without an expiry) nothing is written back.
  pub get-hit_below :
      (first level level' level'' : S) (misses rest : List S) (value : Value) (ttl : ℤ)
      (err : Option Error)
      → All Misses (first ∷ misses)
      → ops.get level key dest ≡ (level', value, none)
      → ops.ttl level' key ≡ (level'', ttl, err)
      → get ops (first ∷ (misses ++ level ∷ rest)) key dest ≡ (
        (if ltb_ℤ (pos 0) ttl then map (written value ttl) (first ∷ misses) else first ∷ misses)
            ++ level'' ∷ rest,
        value,
        none,
      )
  unfolding get
  get-hit_below first level level' level'' misses rest value ttl err m hit left =
      get_from-Misses [] (first ∷ misses) (level ∷ rest) m
      ∙ hit_from (first ∷ misses) level level' rest value hit
      ∙ rw (after_hit_below first level' level'' misses value ttl err left)
