-- ===== src/Cache/Memory/Pattern.antt =====
-- `matchPattern` and `Keys` of pkg/cache/memory.go. The texts are taken as their code points; for
-- UTF-8 texts a prefix of the code points is a prefix of the bytes.
use Prim.Native.Char.{code}
use goupter.Prelude.{
  ℕ, String, Bool, true, false, ◌&&◌, List, [], ◌∷◌, ◌==◌, string_key, nat_key, leb, length, take,
  if◌then◌else◌,
}
use goupter.Prelude.Int.{ℤ}
use goupter.Cache.Memory.{MemoryCache, Item, is_expired}

-- The code points of a text.
abbrev pub codes : String → List ℕ
codes String.[] = []
codes (String.◌∷◌ first rest) = code first ∷ codes rest

-- `==` on texts given by their code points.
unfoldable pub same_codes : List ℕ → List ℕ → Bool
same_codes [] [] = true
same_codes [] (b ∷ bs) = false
same_codes (a ∷ rest) [] = false
same_codes (a ∷ rest) (b ∷ bs) = (a == b) && same_codes rest bs

-- `len(pattern) > 0 && pattern[len(pattern)-1] == '*'`
unfoldable pub ends_with_star : List ℕ → Bool
ends_with_star [] = false
ends_with_star (a ∷ []) = a == b'*'
ends_with_star (a ∷ b ∷ rest) = ends_with_star (b ∷ rest)

-- `pattern[:len(pattern)-1]`
unfoldable pub drop_last : List ℕ → List ℕ
drop_last [] = []
drop_last (a ∷ []) = []
drop_last (a ∷ b ∷ rest) = a ∷ drop_last (b ∷ rest)

-- `len(key) >= len(prefix) && key[:len(prefix)] == prefix`
unfoldable pub has_prefix : List ℕ → List ℕ → Bool
unfolding same_codes
has_prefix key prefix =
    leb (length prefix) (length key) && same_codes (take (length prefix) key) prefix

unfoldable pub match_codes : List ℕ → List ℕ → Bool
unfolding same_codes ends_with_star drop_last has_prefix
match_codes pattern key =
    if same_codes pattern (b'*' ∷ [])
    then true
    else if ends_with_star pattern
    then has_prefix key (drop_last pattern)
    else same_codes pattern key

unfoldable pub match_pattern : String → String → Bool
unfolding match_codes
match_pattern pattern key = match_codes (codes pattern) (codes key)

-- The loop of `Keys`; `now key` is the clock when it is at `key`.
unfoldable pub matching : String → (String → ℤ) → List (String × Item) → List String
matching pattern now [] = []
matching pattern now ((key, item) ∷ items) =
    let rest = matching pattern now items in
    if is_expired item (now key)
    then rest
    else if match_pattern pattern key
    then key ∷ rest
    else rest

unfoldable pub keys : MemoryCache → String → (String → ℤ) → List String
unfolding matching
keys c pattern now = matching pattern now c.items
