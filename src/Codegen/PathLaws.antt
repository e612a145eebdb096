-- ===== src/Codegen/PathLaws.antt =====
-- The name and the base path of a resource are read off the same parts of a path.
use goupter.Prelude.{
  append, ◌≡◌, refl, ap, String, Bool, true, false, List, [], ◌∷◌, arith, ◌==◌, string_key, All,
}
use goupter.Config.Values.{join}
use goupter.Codegen.Strings.{has_suffix, split_at, trim_of}
use goupter.Codegen.Paths.{
  Part, ignored, version, service, last, kept, part_of, resource_parts, base_parts,
  extract_resource_from_path, extract_resource_base_path,
}

-- A text that no loop leaves out.
abbrev pub IsPlain : String → Type 0
IsPlain part = ((part == "") ≡ false) × ((part == "api") ≡ false)

-- "/" before each part.
abbrev pub slash_path : List String → String
slash_path [] = ""
slash_path (first ∷ rest) = append "/" (join (first ∷ rest) "/")

module _ (to_lower : String → String) where
  base_parts-eq :
      (skip : Bool) (parts : List String)
      → base_parts to_lower skip parts ≡ resource_parts to_lower skip parts
  unfolding base_parts resource_parts
  base_parts-eq skip [] = refl
  base_parts-eq skip (part ∷ parts) =
      ground (arith, base_parts-eq skip parts, base_parts-eq true parts, base_parts-eq false parts)

  kept-IsPlain : (skip : Bool) (part : String) → part_of to_lower skip part ≡ kept → IsPlain part
  unfolding part_of
  kept-IsPlain skip part h = ground arith

  resource_parts-IsPlain :
      (skip : Bool) (parts : List String) → All IsPlain (resource_parts to_lower skip parts)
  unfolding resource_parts
  resource_parts-IsPlain skip [] = tt
  resource_parts-IsPlain skip (part ∷ parts) =
      turn part parts (part_of to_lower skip part) (kept-IsPlain skip part)
        (resource_parts-IsPlain skip parts) (resource_parts-IsPlain true parts)
        (resource_parts-IsPlain false parts)
    where
      turn :
          (part : String) (parts : List String) (found : Part)
          → (found ≡ kept → IsPlain part)
          → All IsPlain (resource_parts to_lower skip parts)
          → All IsPlain (resource_parts to_lower true parts)
          → All IsPlain (resource_parts to_lower false parts)
          → All IsPlain (elim found [
            | ignored ↦ resource_parts to_lower skip parts
            | version ↦ resource_parts to_lower true parts
            | service ↦ resource_parts to_lower false parts
            | last ↦ []
            | kept ↦ part ∷ resource_parts to_lower false parts
          ])
      turn part parts ignored plain same after next = same
      turn part parts version plain same after next = after
      turn part parts service plain same after next = next
      turn part parts last plain same after next = tt
      turn part parts kept plain same after next = (plain refl, next)

  -- Unless a path ends in "/health", its resource name and its base path are made of the same parts,
  -- none of them empty or "api": joined by "_", and each after a "/".
  pub extract_resource_parts :
      (path : String)
      → has_suffix path "/health" ≡ false
      → (parts : List String) × All IsPlain parts
        × (extract_resource_from_path to_lower path ≡ join parts "_")
        × (extract_resource_base_path to_lower path ≡ slash_path parts)
  unfolding extract_resource_from_path extract_resource_base_path
  extract_resource_parts path h =
      let parts = split_at b'/' (trim_of b'/' path) in
      (
        resource_parts to_lower false parts,
        resource_parts-IsPlain false parts,
        rw h refl,
        rw h (ap slash_path (base_parts-eq false parts)),
      )
