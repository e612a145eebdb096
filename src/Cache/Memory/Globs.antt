-- ===== src/Cache/Memory/Globs.antt =====
-- What `matchPattern` of pkg/cache/memory.go matches, and what `Keys` lists.
use goupter.Prelude.{
  ℕ, String, ◌≡◌, refl, sym, ap, ◌∙◌, ◌↔◌, Bool, true, false, none, some, List, [], ◌∷◌, ◌++◌, ◌==◌,
  string_key, nat_key, arith, if◌then◌else◌,
}
use goupter.Prelude.Dict.{Distinct, lookup}
use goupter.Prelude.Int.{ℤ}
use goupter.Cache.Memory.{MemoryCache, Item, is_expired, live}
use goupter.Cache.Memory.Pattern.{
  same_codes, ends_with_star, drop_last, has_prefix, match_codes, match_pattern, matching, keys,
}

same_codes→eq : (a b : List ℕ) → same_codes a b ≡ true → a ≡ b
unfolding same_codes
same_codes→eq [] [] h = refl
same_codes→eq [] (b ∷ bs) h = cc
same_codes→eq (a ∷ rest) [] h = cc
same_codes→eq (a ∷ rest) (b ∷ bs) h = ground (arith, same_codes→eq rest bs)

same_codes_self : (a : List ℕ) → same_codes a a ≡ true
unfolding same_codes
same_codes_self [] = refl
same_codes_self (a ∷ rest) = ground (arith, same_codes_self rest)

eq→same_codes : (a b : List ℕ) → a ≡ b → same_codes a b ≡ true
eq→same_codes a b h = rw h (same_codes_self b)

-- The prefix test accepts exactly the extensions of the prefix.
prefix_split :
    (key prefix : List ℕ) → has_prefix key prefix ≡ true → (rest : List ℕ) × (key ≡ prefix ++ rest)
unfolding has_prefix same_codes
prefix_split key [] h = (key, refl)
prefix_split [] (p ∷ ps) h = absurd (ground arith)
prefix_split (k ∷ ks) (p ∷ ps) h =
    let (rest, e) = prefix_split ks ps (ground arith) in (rest, ground arith)

prefix_append : (prefix rest : List ℕ) → has_prefix (prefix ++ rest) prefix ≡ true
unfolding has_prefix same_codes
prefix_append [] rest = ground arith
prefix_append (p ∷ ps) rest = ground (arith, prefix_append ps rest)

ends_with_star-append : (p : List ℕ) → ends_with_star (p ++ b'*' ∷ []) ≡ true
unfolding ends_with_star
ends_with_star-append [] = refl
ends_with_star-append (a ∷ []) = refl
ends_with_star-append (a ∷ b ∷ rest) = ends_with_star-append (b ∷ rest)

drop_last-append : (p : List ℕ) (a : ℕ) → drop_last (p ++ a ∷ []) ≡ p
unfolding drop_last
drop_last-append [] a = refl
drop_last-append (b ∷ []) a = refl
drop_last-append (b ∷ c ∷ rest) a = ap (◌∷◌ b) (drop_last-append (c ∷ rest) a)

longer_than_star : (a : ℕ) (p : List ℕ) → same_codes (a ∷ (p ++ b'*' ∷ [])) (b'*' ∷ []) ≡ false
unfolding same_codes
longer_than_star a [] = ground arith
longer_than_star a (b ∷ p) = ground arith

match_codes-append : (p key : List ℕ) → match_codes (p ++ b'*' ∷ []) key ≡ has_prefix key p
unfolding match_codes
match_codes-append [] key = sym (prefix_append [] key)
match_codes-append (a ∷ p) key =
    rw (longer_than_star a p, ends_with_star-append (a ∷ p), drop_last-append (a ∷ p)) refl

-- A pattern that ends with a star matches exactly the texts that extend what stands before it.
pub match_codes-star :
    (p key : List ℕ)
    → (match_codes (p ++ b'*' ∷ []) key ≡ true) ↔ ((rest : List ℕ) × (key ≡ p ++ rest))
match_codes-star p key = (
  λ h. prefix_split key p (sym (match_codes-append p key) ∙ h),
  λ (r : (rest : List ℕ) × (key ≡ p ++ rest)).
      match_codes-append p key ∙ rw r.1 (prefix_append p r.0),
)

star_ends :
    (pattern : List ℕ) → same_codes pattern (b'*' ∷ []) ≡ true → ends_with_star pattern ≡ true
unfolding ends_with_star
star_ends pattern h = rw (same_codes→eq pattern (b'*' ∷ []) h)

-- Any other pattern, one with a star at its beginning or inside included, matches itself alone.
pub match_codes-plain :
    (pattern key : List ℕ)
    → ends_with_star pattern ≡ false
    → (match_codes pattern key ≡ true) ↔ (pattern ≡ key)
unfolding match_codes
match_codes-plain pattern key h = (
  λ m. same_codes→eq pattern key (ground (arith, star_ends pattern)),
  λ e. ground (arith, star_ends pattern, eq→same_codes pattern key e),
)

-- A text is in the list.
abbrev pub among : String → List String → Bool
among j [] = false
among j (key ∷ ks) = if key == j then true else among j ks

among-matching :
    (pattern : String) (now : String → ℤ) (j : String) (items : List (String × Item))
    → Distinct items
    → among j (matching pattern now items) ≡ elim (lookup j items) [
      | none ↦ false
      | some item ↦ if is_expired item (now j) then false else match_pattern pattern j
    ]
unfolding matching lookup
among-matching pattern now j [] d = refl
among-matching pattern now j ((key, item) ∷ items) d =
    ground (arith, string_key.same_iff key j, among-matching pattern now j items d.1)

-- `Keys` lists exactly the keys that a read finds and that match the pattern.
pub among-keys :
    (c : MemoryCache) (pattern j : String) (now : String → ℤ)
    → Distinct c.items
    → among j (keys c pattern now)
      ≡ elim (live c j (now j)) [ none ↦ false | some item ↦ match_pattern pattern j ]
unfolding keys live
among-keys c pattern j now d = ground (arith, among-matching pattern now j c.items d)
