-- ===== src/Codegen/Httpbook.antt =====
-- The text of a file of requests, as cmd/goupter/internal/cmd/gen_httpbook.go writes it.
use goupter.Prelude.{
  ℕ, suc, append, leb, String, Bool, true, false, not, Option, none, some, List, [], ◌∷◌, ◌++◌,
  ◌==◌, string_key, ◌&&◌, ◌||◌, if◌then◌else◌,
}
use goupter.Config.Values.{join}
use goupter.Codegen.Strings.{contains_text, has_suffix, replace_all, trim_space}
use goupter.Codegen.Paths.{to_camel_case_lower}
use goupter.Codegen.Routes.{EndpointInfo, FieldInfo, RouteInfo}

-- The writes of a `strings.Builder`, one after the other.
unfoldable pub written : List String → String
written [] = ""
written (text ∷ texts) = append text (written texts)

-- `parseTypesFile` of a file that can be read, on its lines: `field_of` is the regular expression of a
-- field.
module _ (field_of : String → Option (String × String × String)) where
  -- The lines of the request, up to a lone brace.
  unfoldable pub request_fields : List String → List FieldInfo
  unfolding trim_space contains_text
  request_fields [] = []
  request_fields (line ∷ lines) =
      let more = request_fields lines in
      if contains_text line "type Create" && contains_text line "Request struct"
      then more
      else if trim_space line == "}"
      then []
      else elim (field_of line) [
        | none ↦ more
        | some (name, go_type, json_tag) ↦
            record { name = name; go_type = go_type; json_tag = json_tag } ∷ more
      ]

  unfoldable pub parse_types : List String → List FieldInfo
  unfolding request_fields contains_text
  parse_types [] = []
  parse_types (line ∷ lines) =
      let more = parse_types lines in
      if contains_text line "type Create" && contains_text line "Request struct"
      then request_fields lines
      else more

unfoldable pub get_default_value : String → String
unfolding contains_text
get_default_value go_type =
    if contains_text go_type "int"
    then "0"
    else if contains_text go_type "float"
    then "0.0"
    else if go_type == "bool"
    then "false"
    else if contains_text go_type "Time"
    then "\"2024-01-01T00:00:00Z\""
    else "\"\""

unfoldable pub body_line : FieldInfo → String
unfolding get_default_value
body_line f = written ("  \"" ∷ f.json_tag ∷ "\": " ∷ get_default_value f.go_type ∷ [])

-- The loop of `generateJSONBody`: `count` fields are behind, and a limited body stops at two.
unfoldable pub body_lines : List FieldInfo → Bool → ℕ → List String
unfolding body_line
body_lines [] limit_fields count = []
body_lines (f ∷ fields) limit_fields count =
    let more = body_lines fields limit_fields (suc count) in
    if limit_fields && leb 2 (suc count) then body_line f ∷ [] else body_line f ∷ more

unfoldable pub generate_json_body : List FieldInfo → Bool → String
unfolding body_lines written
generate_json_body [] limit_fields = "{\n  \n}"
generate_json_body (f ∷ fields) limit_fields =
    written ("{\n" ∷ join (body_lines (f ∷ fields) limit_fields 0) ",\n" ∷ "\n}" ∷ [])

-- The head of a request: its title, its line, and the token where it is needed.
unfoldable pub request : String → String → String → String → Bool → List String
request comment kind method path need_auth =
    ("### " ∷ comment ∷ " - " ∷ kind ∷ "\n" ∷ method ∷ " {{baseUrl}}" ∷ path ∷ "\n" ∷ [])
    ++ (if need_auth then "Authorization: Bearer {{token}}\n" ∷ [] else [])

abbrev pub accept : List String
accept = "Accept: application/json\n\n" ∷ []

unfoldable pub with_body : List FieldInfo → Bool → List String
unfolding generate_json_body
with_body fields limit_fields =
    "Content-Type: application/json\n\n" ∷ generate_json_body fields limit_fields ∷ "\n\n" ∷ []

module _ (to_lower : String → String) where
  -- The switch over the method of an endpoint.
  unfoldable pub endpoint_text : RouteInfo → String → String → EndpointInfo → List String
  unfolding request with_body contains_text has_suffix replace_all
  endpoint_text r id_var comment ep =
      let path = replace_all ep.path ":id" (written ("{{" ∷ id_var ∷ "}}" ∷ [])) in
      let need_auth = not (contains_text path "/login") in
      let is_list =
        contains_text (to_lower ep.path) "list" || (not ep.is_detail && has_suffix r.name "s") in
      let list_path = if contains_text path "?" then path else append path "?page=1&pageSize=10" in
      if ep.method == "GET"
      then (if is_list
          then request comment "List" "GET" list_path need_auth
          else request comment "Get" "GET" path need_auth)
        ++ accept
      else if ep.method == "POST"
      then request comment "Create" "POST" path need_auth ++ with_body r.fields false
      else if ep.method == "PUT"
      then request comment "Update" "PUT" path need_auth ++ with_body r.fields true
      else if ep.method == "DELETE"
      then request comment "Delete" "DELETE" path need_auth ++ accept
      else []

  unfoldable pub endpoint_texts : RouteInfo → String → String → List EndpointInfo → List String
  unfolding endpoint_text
  endpoint_texts r id_var comment [] = []
  endpoint_texts r id_var comment (ep ∷ eps) =
      endpoint_text r id_var comment ep ++ endpoint_texts r id_var comment eps

-- The texts of a route with no endpoint, by its flags.
unfoldable pub flag_texts : RouteInfo → String → String → List String
unfolding request with_body
flag_texts r id_var comment =
    let all = append "/api/v1" r.base_path in
    let one = written (all ∷ "/{{" ∷ id_var ∷ "}}" ∷ []) in
    (if r.has_list
      then request comment "List" "GET" (append all "?page=1&pageSize=10") true ++ accept
      else [])
    ++ ((if r.has_get then request comment "Get" "GET" one true ++ accept else [])
        ++ ((if r.has_create
              then request comment "Create" "POST" all true ++ with_body r.fields false
              else [])
            ++ ((if r.has_update
                  then request comment "Update（只传需要更新的字段）" "PUT" one true ++ with_body r.fields true
                  else [])
                ++ (if r.has_delete
                    then request comment "Delete" "DELETE" one true ++ accept
                    else []))))

module _ (to_lower upper_first : String → String) where
  unfoldable pub generate_route : RouteInfo → List String
  unfolding endpoint_texts flag_texts to_camel_case_lower trim_space
  generate_route r =
      let id_var = append (to_camel_case_lower upper_first r.name) "Id" in
      let trimmed = trim_space r.comment in
      let comment = if trimmed == "" then r.struct_name else trimmed in
      elim r.endpoints [
        | [] ↦ flag_texts r id_var comment
        | ep ∷ eps ↦ endpoint_texts to_lower r id_var comment (ep ∷ eps)
      ]

-- The first loop of `generateHTTPBookFromRoutes`: the path of the last route of the name that has an
-- endpoint.
unfoldable pub fixed_path : String → String → List RouteInfo → String
fixed_path name path [] = path
fixed_path name path (r ∷ routes) =
    fixed_path name
      (elim r.endpoints [ [] ↦ path | ep ∷ eps ↦ if r.name == name then ep.path else path ]) routes

-- The routes that have requests of their own.
unfoldable pub own_routes : String → List RouteInfo → List RouteInfo
own_routes service [] = []
own_routes service (r ∷ routes) =
    let more = own_routes service routes in
    if (r.name == service) || (r.name == "health") then more else r ∷ more

-- `@xId = 1` for each route.
unfoldable pub variables : (String → String) → List RouteInfo → List String
unfolding to_camel_case_lower
variables upper_first [] = []
variables upper_first (r ∷ routes) =
    ("@" ∷ append (to_camel_case_lower upper_first r.name) "Id" ∷ " = 1\n" ∷ [])
    ++ variables upper_first routes

module _ (to_lower upper_first : String → String) where
  unfoldable pub route_texts : List RouteInfo → List String
  unfolding generate_route
  route_texts [] = []
  route_texts (r ∷ routes) = generate_route to_lower upper_first r ++ route_texts routes

  -- `generateHTTPBookFromRoutes`; `service[:1]` panics on an empty name.
  unfoldable pub generate_httpbook : String → String → String → List RouteInfo → Option String
  unfolding fixed_path own_routes variables route_texts request written
  generate_httpbook service base_url port routes =
      let root_path = fixed_path service "/" routes in
      let health_path = fixed_path "health" "/api/v1/health" routes in
      let own = own_routes service routes in
      if service == ""
      then none
      else some (
          written (
            ("@baseUrl = " ∷ base_url ∷ ":" ∷ port ∷ "\n" ∷ "@token = your_jwt_token_here\n" ∷ [])
            ++ (variables upper_first own
                ++ (("\n"
                      ∷ "# "
                      ∷ upper_first service
                      ∷ " HTTP API 调试（Rest Client / httpBook / httpYac 兼容）\n# 启动服务: make run SVC="
                      ∷ service
                      ∷ "\n# 使用说明: 先调用 Login 获取 token，然后将 token 值填入上方 @token 变量\n\n"
                      ∷ "### Root\nGET {{baseUrl}}"
                      ∷ root_path
                      ∷ "\nAccept: application/json\n\n### Health\nGET {{baseUrl}}"
                      ∷ health_path
                      ∷ "\nAccept: application/json\n\n"
                      ∷ [])
                    ++ route_texts own))))
