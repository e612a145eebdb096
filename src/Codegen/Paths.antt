-- ===== src/Codegen/Paths.antt =====
-- The names that cmd/goupter/internal/cmd/gen_httpbook.go reads off a path. `to_lower` is
-- `strings.ToLower`, and `upper_first` is `strings.ToUpper(s[:1]) + s[1:]` of a text that is not empty.
use Prim.Native.String.{len}
use goupter.Prelude.{
  append, String, Bool, true, false, List, [], ◌∷◌, ◌==◌, string_key, leb, ◌&&◌, ◌||◌,
  if◌then◌else◌,
}
use goupter.Config.Values.{join}
use goupter.Codegen.Strings.{has_prefix, has_suffix, split_at, trim_of}

-- `strings.HasPrefix(part, "v") && len(part) <= 3`
unfoldable pub is_version : String → Bool
unfolding has_prefix
is_version part = has_prefix part "v" && leb (len part) 3

-- What a loop over the parts of a path does with one: it passes over it, notes a version, passes over
-- the name of a service after one, breaks, or keeps it.
pub data Part : Type 0 where
  ignored : Part
  version : Part
  service : Part
  last : Part
  kept : Part

module _ (to_lower : String → String) where
  -- The part looks like the name of a method.
  unfoldable pub is_method_name : String → Bool
  unfolding has_prefix
  is_method_name part =
      let lower = to_lower part in
      has_prefix lower "get"
      || (has_prefix lower "create"
          || (has_prefix lower "update"
              || (has_prefix lower "delete"
                  || (has_prefix lower "list"
                      || (has_prefix lower "add"
                          || (has_prefix lower "remove" || has_prefix lower "set"))))))

  -- The tests of one turn, which the two loops share: `skip_next` is set after a version.
  unfoldable pub part_of : Bool → String → Part
  unfolding is_version is_method_name has_prefix
  part_of skip_next part =
      if (part == "") || (part == "api")
      then ignored
      else if is_version part
      then version
      else if skip_next
      then service
      else if has_prefix part ":"
      then last
      else if is_method_name part
      then last
      else kept

  -- The loop of `extractResourceFromPath`.
  unfoldable pub resource_parts : Bool → List String → List String
  unfolding part_of
  resource_parts skip_next [] = []
  resource_parts skip_next (part ∷ parts) = elim (part_of skip_next part) [
    | ignored ↦ resource_parts skip_next parts
    | version ↦ resource_parts true parts
    | service ↦ resource_parts false parts
    | last ↦ []
    | kept ↦ part ∷ resource_parts false parts
  ]

  -- The loop of `extractResourceBasePath`.
  unfoldable pub base_parts : Bool → List String → List String
  unfolding part_of
  base_parts skip_next [] = []
  base_parts skip_next (part ∷ parts) = elim (part_of skip_next part) [
    | ignored ↦ base_parts skip_next parts
    | version ↦ base_parts true parts
    | service ↦ base_parts false parts
    | last ↦ []
    | kept ↦ part ∷ base_parts false parts
  ]

  unfoldable pub extract_resource_from_path : String → String
  unfolding resource_parts has_suffix split_at trim_of
  extract_resource_from_path path =
      if has_suffix path "/health"
      then "health"
      else join (resource_parts false (split_at b'/' (trim_of b'/' path))) "_"

  unfoldable pub extract_resource_base_path : String → String
  unfolding base_parts has_suffix split_at trim_of
  extract_resource_base_path path =
      if has_suffix path "/health"
      then "/health"
      else elim (base_parts false (split_at b'/' (trim_of b'/' path))) [
        | [] ↦ ""
        | first ∷ rest ↦ append "/" (join (first ∷ rest) "/")
      ]

module _ (upper_first : String → String) where
  unfoldable pub pascal_parts : List String → List String
  pascal_parts [] = []
  pascal_parts (part ∷ parts) = (if part == "" then part else upper_first part) ∷ pascal_parts parts

  unfoldable pub to_pascal_case : String → String
  unfolding pascal_parts split_at
  to_pascal_case s =
      let result = join (pascal_parts (split_at b'_' s)) "" in
      if result == "" then result else upper_first result

  unfoldable pub to_camel_case_lower : String → String
  unfolding pascal_parts split_at
  to_camel_case_lower s = elim (split_at b'_' s) [
    | [] ↦ ""
    | first ∷ rest ↦ join (first ∷ pascal_parts rest) ""
  ]
