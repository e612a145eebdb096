-- ===== src/Cache/Multi/Writes.antt =====
-- Writes of pkg/cache/multi.go: errors of the levels, and `SetNX`.
use goupter.Prelude.{
  String, ◌≡◌, refl, Bool, false, Option, none, some, List, [], ◌∷◌, ◌++◌, map, arith,
  if◌then◌else◌,
}
use goupter.Prelude.Int.{ℤ}
use goupter.Cache.Errors.{Error}
use goupter.Cache.Level.{CacheOps}
use goupter.Cache.Multi.{last_err, on_all, set_nx}

module _ {Value S : Type 0} (ops : CacheOps Value S) where
  -- The last error of a row of replies.
  abbrev pub last_of : Option Error → List (Option Error) → Option Error
  last_of last [] = last
  last_of last (err ∷ errs) = last_of (last_err err last) errs

  on_all-map_from :
      (call : S → S × Option Error) (levels : List S) (last : Option Error)
      → on_all call levels last
        ≡ (map (λ l. (call l).0) levels, last_of last (map (λ l. (call l).1) levels))
  unfolding on_all
  on_all-map_from call [] last = refl
  on_all-map_from call (level ∷ levels) last =
      rw (on_all-map_from call levels (last_err (call level).1 last))

  -- A write that fails on a level goes on with the levels below it: every level is called, once
  -- and in order, and the error returned is that of the last level that failed.
  pub on_all-map :
      (call : S → S × Option Error) (levels : List S)
      → on_all call levels none
        ≡ (map (λ l. (call l).0) levels, last_of none (map (λ l. (call l).1) levels))
  on_all-map call levels = on_all-map_from call levels none

  -- What `SetNX` makes of the levels above the last, and replies.
  abbrev pub set_nx_outcome :
      List S → S → Bool → Option Error → (S → S) → List S × Bool × Option Error
  set_nx_outcome levels last done none write =
      ((if done then map write levels else levels) ++ last ∷ [], done, none)
  set_nx_outcome levels last done (some e) write = (levels ++ last ∷ [], false, some e)

  -- `SetNX` is decided by the last level alone: if it is done there, the value is set on every
  -- other level; if it is refused there or fails, the other levels stay as they are.
  pub set_nx-append :
      (levels : List S) (last last' : S) (key : String) (v : Value) (ttl : ℤ) (done : Bool)
      (err : Option Error)
      → ops.set_nx last key v ttl ≡ (last', done, err)
      → set_nx ops (levels ++ last ∷ []) key v ttl
        ≡ set_nx_outcome levels last' done err (λ l. (ops.set l key v ttl).0)
  unfolding set_nx
  set_nx-append [] last last' key v ttl done none h = ground arith
  set_nx-append [] last last' key v ttl done (some e) h = ground arith
  set_nx-append (l ∷ []) last last' key v ttl done none h =
      ground (arith, set_nx-append [] last last' key v ttl done none h)
  set_nx-append (l ∷ []) last last' key v ttl done (some e) h =
      ground (arith, set_nx-append [] last last' key v ttl done (some e) h)
  set_nx-append (l ∷ m ∷ levels) last last' key v ttl done none h =
      ground (arith, set_nx-append (m ∷ levels) last last' key v ttl done none h)
  set_nx-append (l ∷ m ∷ levels) last last' key v ttl done (some e) h =
      ground (arith, set_nx-append (m ∷ levels) last last' key v ttl done (some e) h)
