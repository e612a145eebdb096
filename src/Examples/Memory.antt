-- ===== src/Examples/Memory.antt =====
-- Examples about pkg/cache/memory.go.
use goupter.Prelude.{
  inl, ℕ, String, ◌≡◌, refl, ◌↔◌, true, false, none, some, List, [], ◌∷◌, ◌++◌, string_key, arith,
}
use goupter.Prelude.Dict.{lookup, insert, delete, delete_if}
use goupter.Prelude.Int.{ℤ, pos, negsuc, ◌+ℤ◌, ◌-ℤ◌}
use goupter.Cache.Errors.{self, under, not_found, wrap, is_not_found, is_not_found-Chain}
use goupter.Cache.Memory.{
  MemoryCache, is_expired, live, get_raw, get, set, put, expiry, expire, cleanup, incr_by, current,
  set_nx, ttl, mset, mget,
}
use goupter.Cache.Memory.Reads.{get_raw-set}
use goupter.Cache.Memory.Calls.{run, tick, sets, incr_bys}
use goupter.Cache.Memory.Cleaner.{History, calls_of, run_uncleaned, run-run_uncleaned}
use goupter.Cache.Memory.Expiry.{live-expire_expired, ttl-live, ttl_reply, set_nx-set_nx}
use goupter.Cache.Memory.Counter.{incr_all, sum_from, current-incr_all, ttl-incr_by}
use goupter.Cache.Memory.Globs.{match_codes-star, match_codes-plain, among, among-keys}
use goupter.Cache.Memory.Pattern.{keys, match_pattern, match_codes, codes, ends_with_star}
use goupter.Cache.Memory.Batch.{lookup-mget, found, live-mset, stored, last_stored, first_error}
use goupter.Examples.CacheData.{codec, two, decode_int-encode}

program : Unit {0}
unfolding lookup insert delete delete_if ◌+ℤ◌ ◌-ℤ◌ is_expired live get_raw get set put expiry expire
    cleanup set_nx ttl
program = tt

two_reads : get_raw two "b" (pos 50) ≡ (0 ∷ 8 ∷ [], none)
unfolding program
two_reads = refl

two_expired : get_raw two "b" (pos 51) ≡ ([], some (not_found "b"))
unfolding program
two_expired = refl

globs : match_pattern "us*" "user" ≡ true
unfolding match_pattern
globs = refl

leading_star : match_pattern "*er" "user" ≡ false
unfolding match_pattern
leading_star = refl

is_not_found-Chain_example : is_not_found (some (wrap "get" (wrap "l1" (not_found "a")))) ≡ true
is_not_found-Chain_example =
    is_not_found-Chain (wrap "get" (wrap "l1" (not_found "a"))) (not_found "a")
      (under "get" (under "l1" self)) refl

get_raw-set_example :
    get_raw (set codec two "c" (pos 9) (pos 10) (pos 40)).0 "c" (pos 60)
    ≡ ([], some (not_found "c"))
unfolding ◌+ℤ◌
get_raw-set_example = get_raw-set codec two "c" "c" (pos 9) (pos 10) (pos 40) (pos 60) refl

-- A `Set`, a tick of the cleaner that drops "b", and an `IncrBy`.
abbrev history : History codec
history =
    (pos 60, sets "c" (pos 1) (pos 30) (pos 60))
    ∷ (pos 62, tick (λ _. pos 61))
    ∷ (pos 63, incr_bys "b" (pos 5) (pos 63))
    ∷ []

run-run_uncleaned_example :
    live (run codec two (calls_of codec history)) "b" (pos 70)
    ≡ live (run_uncleaned codec two history) "b" (pos 70)
unfolding lookup
run-run_uncleaned_example =
    run-run_uncleaned codec (pos 0) two history "b" (pos 70) (refl, (refl, tt))
      (
        omega arith,
        tt,
        tt,
        (omega arith, tt, (λ k. omega arith), (omega arith, omega arith, tt, tt)),
      )
      (omega arith)

live-expire_expired_example :
    live (expire two "b" (pos 100) (pos 90)) "b" (pos 95)
    ≡ some (record { value = 0 ∷ 8 ∷ []; expires_at = some (pos 90 +ℤ pos 100) })
unfolding program
live-expire_expired_example =
    live-expire_expired two "b" (pos 100) (pos 90) (pos 95) refl refl (omega arith)

ttl-live_example : ttl two "b" (pos 20) (pos 21) ≡ ttl_reply (live two "b" (pos 20)) (pos 21)
ttl-live_example = ttl-live two "b" (pos 20) (pos 21)

abbrev locked : MemoryCache
locked = two

set_nx-set_nx_example :
    set_nx codec
      (set_nx codec two "lock" (pos 1) (pos 30) (pos 5) (pos 6)).0
      "lock"
      (pos 2)
      (pos 9)
      (pos 30)
      (pos 31)
    ≡ ((set_nx codec two "lock" (pos 1) (pos 30) (pos 5) (pos 6)).0, false, none)
unfolding program
set_nx-set_nx_example =
    set_nx-set_nx codec two "lock" (pos 1) (pos 2) (pos 30) (pos 9) (pos 5) (pos 6) (pos 30)
      (pos 31) refl (inl (omega arith))

abbrev bumps : List (ℤ × ℤ)
bumps = (pos 5, pos 1) ∷ (negsuc 1, pos 2) ∷ []

current-incr_all_example :
    current codec (incr_all codec two "n" bumps) "n" (pos 9) ≡ sum_from (pos 0) bumps
unfolding lookup ◌+ℤ◌
current-incr_all_example =
    current-incr_all codec (λ n m _. decode_int-encode n m) two "n" bumps (pos 9) refl (omega arith)

ttl-incr_by_example : ttl (incr_by codec two "b" (pos 1) (pos 3)).0 "b" (pos 4) (pos 5) ≡ negsuc 0
ttl-incr_by_example = ttl-incr_by codec two "b" (pos 1) (pos 3) (pos 4) (pos 5)

match_codes-star_example :
    (match_codes (codes "us" ++ b'*' ∷ []) (codes "user") ≡ true)
    ↔ ((rest : List ℕ) × (codes "user" ≡ codes "us" ++ rest))
match_codes-star_example = match_codes-star (codes "us") (codes "user")

match_codes-plain_example :
    (match_codes (codes "*er") (codes "user") ≡ true) ↔ (codes "*er" ≡ codes "user")
unfolding ends_with_star
match_codes-plain_example = match_codes-plain (codes "*er") (codes "user") refl

among-keys_example :
    among "b" (keys two "b*" (λ _. pos 20))
    ≡ elim (live two "b" (pos 20)) [ none ↦ false | some item ↦ match_pattern "b*" "b" ]
unfolding lookup
among-keys_example = among-keys two "b*" "b" (λ _. pos 20) (refl, (refl, tt))

lookup-mget_example :
    lookup "b" (mget codec two (("b", pos 20) ∷ ("z", pos 20) ∷ []) [])
    ≡ found codec two "b" (("b", pos 20) ∷ ("z", pos 20) ∷ []) (lookup {K = String} "b" [])
lookup-mget_example = lookup-mget codec two (("b", pos 20) ∷ ("z", pos 20) ∷ []) "b" []

abbrev batch : List (String × ℤ)
batch = ("x", pos 1) ∷ ("y", negsuc 0) ∷ ("z", pos 3) ∷ []

live-mset_example :
    ((mset codec two batch (pos 10) (λ _. pos 60)).1 ≡ first_error codec batch)
    × (live (mset codec two batch (pos 10) (λ _. pos 60)).0 "z" (pos 61)
        ≡ last_stored codec "z"
            (stored codec batch)
            (pos 10)
            (λ _. pos 60)
            (pos 61)
            (live two "z" (pos 61)))
live-mset_example = live-mset codec two batch (pos 10) (λ _. pos 60) "z" (pos 61)
