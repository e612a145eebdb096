-- ===== src/Codegen/Routes.antt =====
-- `parseRoutesFile` of cmd/goupter/internal/cmd/gen_httpbook.go: two passes over the lines of a file of
-- routes. The regular expressions are parameters that answer the submatches of a line.
use goupter.Prelude.{
  append, String, Bool, true, false, Option, none, some, List, [], ◌∷◌, ◌++◌, ◌==◌, string_key,
  ◌&&◌, ◌||◌, not, if◌then◌else◌,
}
use goupter.Prelude.Dict.{lookup, insert}
use goupter.Prelude.Int.{ℤ, pos, ◌+ℤ◌, ◌-ℤ◌, int_key}
use goupter.Codegen.Strings.{contains_text, count_of, trim_space}
use goupter.Codegen.Paths.{extract_resource_from_path, extract_resource_base_path, to_pascal_case}

-- `EndpointInfo`, `FieldInfo` and `RouteInfo`
pub record EndpointInfo : Type 0 where
  pub method : String
  pub path : String
  pub is_detail : Bool

pub record FieldInfo : Type 0 where
  pub name : String
  pub go_type : String
  pub json_tag : String

pub record RouteInfo : Type 0 where
  pub name : String
  pub struct_name : String
  pub comment : String
  pub base_path : String
  pub has_create : Bool
  pub has_get : Bool
  pub has_list : Bool
  pub has_update : Bool
  pub has_delete : Bool
  pub fields : List FieldInfo
  pub endpoints : List EndpointInfo

-- The regular expressions, by the names of their variables.
pub record Patterns : Type 0 where
  pub main_func : String → Bool
  pub http_server : String → Option String
  pub group : String → Option (String × String × String)
  pub func_call : String → Option (String × String)
  pub comment : String → Option String
  pub func_def : String → Option String
  pub func_param : String → Option String
  pub method : String → Option (String × String × String)

-- A read of a map of texts: "" for a missing key.
unfoldable pub path_of : String → List (String × String) → String
path_of key paths = elim (lookup key paths) [ none ↦ "" | some path ↦ path ]

unfoldable pub func_name : String → String
func_name middle = append "Register" (append middle "Routes")

-- The first pass: `globalGroupPaths`, `funcCallParams`, `inMainFunc` and `braceCount`.
pub record Globals : Type 0 where
  pub group_paths : List (String × String)
  pub call_params : List (String × String)
  pub in_main : Bool
  pub braces : ℤ

module _ (re : Patterns) where
  -- `varName := x.HTTPServer()` and `newVar := parentVar.Group("groupPath"`
  unfoldable pub note_server : String → List (String × String) → List (String × String)
  note_server line paths = elim (re.http_server line) [
    | none ↦ paths
    | some var_name ↦ insert var_name "" paths
  ]

  unfoldable pub note_group : String → List (String × String) → List (String × String)
  unfolding path_of
  note_group line paths = elim (re.group line) [
    | none ↦ paths
    | some (new_var, parent_var, group_path) ↦
        insert new_var (append (path_of parent_var paths) group_path) paths
  ]

  unfoldable pub note_call : String → List (String × String) → List (String × String)
  unfolding func_name
  note_call line params = elim (re.func_call line) [
    | none ↦ params
    | some (middle, param_var) ↦ insert (func_name middle) param_var params
  ]

  unfoldable pub in_main_line : Globals → String → Globals
  unfolding note_server note_group note_call count_of contains_text
  in_main_line g line =
      let braces = g.braces +ℤ (pos (count_of b'{' line) -ℤ pos (count_of b'}' line)) in
      record {
        group_paths = note_group line (note_server line g.group_paths);
        call_params = note_call line g.call_params;
        in_main = not ((braces == pos 0) && contains_text line "}");
        braces = braces;
      }

  unfoldable pub first_line : Globals → String → Globals
  unfolding in_main_line
  first_line g line =
      let g' = if re.main_func line then record g { in_main = true; braces = pos 0 } else g in
      if g'.in_main then in_main_line g' line else g'

  unfoldable pub first_pass : Globals → List String → Globals
  unfolding first_line
  first_pass g [] = g
  first_pass g (line ∷ lines) = first_pass (first_line g line) lines

-- The second pass.
pub record Parser : Type 0 where
  pub last_comment : String
  pub group_paths : List (String × String)
  pub in_function : Bool
  pub current_func_name : String
  pub routes : List (String × RouteInfo)

-- The switch that sets the flags.
unfoldable pub set_flag : String → Bool → RouteInfo → RouteInfo
set_flag method is_detail r =
    if (method == "POST") && not is_detail
    then record r { has_create = true }
    else if (method == "GET") && not is_detail
    then record r { has_list = true }
    else if (method == "GET") && is_detail
    then record r { has_get = true }
    else if method == "PUT"
    then record r { has_update = true }
    else if method == "DELETE"
    then record r { has_delete = true }
    else r

unfoldable pub add_endpoint : String → String → Bool → RouteInfo → RouteInfo
add_endpoint method full_path is_detail r =
    let e : EndpointInfo = record { method = method; path = full_path; is_detail = is_detail } in
    set_flag method is_detail (record r { endpoints = r.endpoints ++ e ∷ [] })

-- The end of a turn: a lone brace ends the function.
unfoldable pub leave : Parser → String → Parser
unfolding trim_space
leave s line =
    if trim_space line == "}" then record s { in_function = false; current_func_name = "" } else s

module _ (re : Patterns) where
  -- A definition `func RegisterXRoutes(r *gin.RouterGroup, ...)`: the parameter stands for the group
  -- that the main function passes.
  unfoldable pub enter : Globals → Parser → String → Parser
  unfolding func_name path_of
  enter g s line = elim (re.func_def line) [
    | none ↦ s
    | some middle ↦
        let param_paths : List (String × String) = elim (re.func_param line) [
          | none ↦ []
          | some param_name ↦ elim (lookup (func_name middle) g.call_params) [
            | none ↦ []
            | some caller_var ↦ insert param_name (path_of caller_var g.group_paths) []
          ]
        ] in
        record s {
          in_function = true;
          current_func_name = func_name middle;
          group_paths = param_paths;
        }
  ]

module _ (to_lower upper_first : String → String) where
  unfoldable pub new_route : String → String → String → RouteInfo
  unfolding to_pascal_case extract_resource_base_path
  new_route resource_name last_comment full_path = record {
    name = resource_name;
    struct_name = to_pascal_case upper_first resource_name;
    comment = last_comment;
    base_path = extract_resource_base_path to_lower full_path;
    has_create = false;
    has_get = false;
    has_list = false;
    has_update = false;
    has_delete = false;
    fields = [];
    endpoints = [];
  }

  -- The route is found or made, and the endpoint is added to it.
  unfoldable pub put_endpoint : Parser → String → String → String → Bool → Parser
  unfolding new_route add_endpoint set_flag
  put_endpoint s resource_name method full_path is_detail = elim (lookup resource_name s.routes) [
    | some route ↦ record s {
      routes = insert resource_name (add_endpoint method full_path is_detail route) s.routes;
    }
    | none ↦ record s {
      last_comment = "";
      routes =
          insert resource_name
            (add_endpoint method full_path is_detail
              (new_route resource_name s.last_comment full_path))
            s.routes;
    }
  ]

  unfoldable pub add_method : Parser → String → String → String → String → Parser
  unfolding path_of extract_resource_from_path put_endpoint leave contains_text
  add_method s line var_name method path =
      let full_path = append (path_of var_name s.group_paths) path in
      let resource_name = extract_resource_from_path to_lower full_path in
      let is_detail = contains_text path ":id" || contains_text path ":" in
      if (full_path == "/") || (full_path == "")
      then s
      else if resource_name == ""
      then s
      else leave (put_endpoint s resource_name method full_path is_detail) line

  module _ (re : Patterns) where
    unfoldable pub in_body : Parser → String → Parser
    unfolding note_server note_group add_method leave
    in_body s line =
        let s' = record s {
          group_paths = note_group re line (note_server re line s.group_paths);
        } in
        elim (re.method line) [
          | none ↦ leave s' line
          | some (var_name, method, path) ↦ add_method s' line var_name method path
        ]

    unfoldable pub second_line : Globals → Parser → String → Parser
    unfolding enter in_body
    second_line g s line = elim (re.comment line) [
      | some comment ↦ record s { last_comment = comment }
      | none ↦ let s' = enter re g s line in if s'.in_function then in_body s' line else s'
    ]

    unfoldable pub second_pass : Globals → Parser → List String → Parser
    unfolding second_line
    second_pass g s [] = s
    second_pass g s (line ∷ lines) = second_pass g (second_line g s line) lines

    -- `parseRoutesFile` of a file that can be read; the order of the map's entries is open.
    unfoldable pub parse_routes : List String → List (String × RouteInfo)
    unfolding first_pass second_pass
    parse_routes lines =
        let g =
          first_pass re
            (record { group_paths = []; call_params = []; in_main = false; braces = pos 0 })
            lines in
        let s : Parser =
          second_pass g
            (record {
              last_comment = "";
              group_paths = [];
              in_function = false;
              current_func_name = "";
              routes = [];
            })
            lines in
        s.routes
