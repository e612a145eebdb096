-- ===== src/Examples/Httpbook.antt =====
-- Examples about cmd/goupter/internal/cmd/gen_httpbook.go. All letters are taken as they are.
use goupter.Prelude.{
  ◌≡◌, refl, String, true, false, none, some, List, [], ◌∷◌, ◌==◌, string_key, map, take, All,
  if◌then◌else◌,
}
use goupter.Prelude.Int.{◌+ℤ◌, ◌-ℤ◌}
use goupter.Prelude.Dict.{lookup, insert}
use goupter.Config.Values.{join}
use goupter.Codegen.Strings.{has_suffix}
use goupter.Codegen.Paths.{extract_resource_from_path, extract_resource_base_path}
use goupter.Codegen.PathLaws.{IsPlain, slash_path, extract_resource_parts}
use goupter.Codegen.Routes.{FieldInfo, RouteInfo, Patterns, parse_routes}
use goupter.Codegen.RouteLaws.{IsRoute, parse_routes-IsRoute}
use goupter.Codegen.Httpbook.{
  body_line, body_lines, generate_json_body, generate_route, generate_httpbook,
}
use goupter.Codegen.HttpbookLaws.{body_lines-take}

abbrev as_is : String → String
as_is s = s

articles : extract_resource_from_path as_is "/api/v1/shop/articles/:id" ≡ "articles"
unfolding extract_resource_from_path join
articles = refl

nofly_base :
    extract_resource_base_path as_is "/api/v1/drone/nofly/manage/getNoflyInfo" ≡ "/nofly/manage"
unfolding extract_resource_base_path join
nofly_base = refl

-- The part after the version counts as the name of a service, also where it is the resource.
no_service : extract_resource_from_path as_is "/api/v1/me" ≡ ""
unfolding extract_resource_from_path join
no_service = refl

login : extract_resource_from_path as_is "/api/v1/auth/login" ≡ "login"
unfolding extract_resource_from_path join
login = refl

extract_resource_parts_example :
    (parts : List String) × All IsPlain parts
    × (extract_resource_from_path as_is "/api/v1/shop/a/b/:id" ≡ join parts "_")
    × (extract_resource_base_path as_is "/api/v1/shop/a/b/:id" ≡ slash_path parts)
unfolding has_suffix
extract_resource_parts_example = extract_resource_parts as_is "/api/v1/shop/a/b/:id" refl

-- Patterns that answer on a few lines.
abbrev patterns : Patterns
patterns = record {
  main_func = λ line. line == "func registerRoutes(app) {";
  http_server = λ line. if line == "r := app.HTTPServer()" then some "r" else none;
  group = λ line. if line == "api := r.Group(/api)" then some ("api", "r", "/api") else none;
  func_call = λ line. if line == "RegisterItemRoutes(api, db)" then some ("Item", "api") else none;
  comment = λ line. if line == "// items" then some "Items" else none;
  func_def = λ line.
      if line == "func RegisterItemRoutes(g) {"
      then some "Item"
      else if line == "func registerRoutes(app) {"
      then some ""
      else none;
  func_param = λ line. if line == "func RegisterItemRoutes(g) {" then some "g" else none;
  method = λ line.
      if line == "g.GET(/items/:id)"
      then some ("g", "GET", "/items/:id")
      else if line == "g.POST(/items)"
      then some ("g", "POST", "/items")
      else none;
}

abbrev file : List String
file =
    "func registerRoutes(app) {" ∷ "r := app.HTTPServer()" ∷ "api := r.Group(/api)"
    ∷ "RegisterItemRoutes(api, db)" ∷ "}" ∷ "// items" ∷ "func RegisterItemRoutes(g) {"
    ∷ "g.GET(/items/:id)" ∷ "g.POST(/items)" ∷ "}" ∷ []

abbrev items : RouteInfo
items = record {
  name = "items";
  struct_name = "items";
  comment = "Items";
  base_path = "/items";
  has_create = true;
  has_get = true;
  has_list = false;
  has_update = false;
  has_delete = false;
  fields = [];
  endpoints =
      record { method = "GET"; path = "/api/items/:id"; is_detail = true }
      ∷ record { method = "POST"; path = "/api/items"; is_detail = false }
      ∷ [];
}

parse_file : parse_routes as_is as_is patterns file ≡ ("items", items) ∷ []
unfolding parse_routes lookup insert join ◌+ℤ◌ ◌-ℤ◌
parse_file = refl

parse_routes-IsRoute_example : All (IsRoute as_is) (parse_routes as_is as_is patterns file)
parse_routes-IsRoute_example = parse_routes-IsRoute as_is as_is patterns file

abbrev three : List FieldInfo
three =
    record { name = "A"; go_type = "int64"; json_tag = "a" }
    ∷ record { name = "B"; go_type = "*time.Time"; json_tag = "b" }
    ∷ record { name = "C"; go_type = "bool"; json_tag = "c" }
    ∷ []

body_lines-take_example :
    (body_lines three false 0 ≡ map body_line three)
    × (body_lines three true 0 ≡ map body_line (take 2 three))
body_lines-take_example = body_lines-take three

update_body : generate_json_body three true ≡ "{\n  \"a\": 0,\n  \"b\": \"2024-01-01T00:00:00Z\"\n}"
unfolding generate_json_body join
update_body = refl

get_item :
    generate_route as_is as_is (record items { endpoints = take 1 items.endpoints })
    ≡ "### " ∷ "Items" ∷ " - " ∷ "Get" ∷ "\n" ∷ "GET" ∷ " {{baseUrl}}" ∷ "/api/items/{{itemsId}}"
      ∷ "\n" ∷ "Authorization: Bearer {{token}}\n" ∷ "Accept: application/json\n\n" ∷ []
unfolding generate_route join
get_item = refl

empty_service : generate_httpbook as_is as_is "" "http://localhost" "8080" [] ≡ none
unfolding generate_httpbook
empty_service = refl
