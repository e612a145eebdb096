-- ===== src/Codegen/Crud.antt =====
-- What cmd/goupter/internal/gen/crud.go writes: the fields of the request types of a table, and the file of
-- routes, to which a later run appends. Files are their texts; an error of the file system is left out.
use goupter.Prelude.{
  append, String, Bool, true, false, not, Option, none, some, List, [], ◌∷◌, ◌++◌, ◌==◌, string_key,
  ◌&&◌, ◌||◌, if◌then◌else◌,
}
use goupter.Codegen.Types.{sql_type_to_basic_type}
use goupter.Codegen.Table.{ColumnInfo, TableInfo, trim_prefix}
use goupter.Codegen.Strings.{contains_text, cut_at, drop_first, has_prefix, split_at, trim_space}

pub record TypeField : Type 0 where
  pub field_name : String
  pub go_type : String
  pub name : String
  pub json_name : String
  pub comment : String

-- What the loop of `generateTypes` collects.
pub record TypeFields : Type 0 where
  pub all_fields : List TypeField
  pub create_fields : List TypeField
  pub update_fields : List TypeField
  pub need_time : Bool

-- `camel_case` is `toCamelCase(name, false)`.
module _ (camel_case : String → String) where
  unfoldable pub type_field : ColumnInfo → TypeField
  unfolding sql_type_to_basic_type
  type_field col = record {
    field_name = col.field_name;
    go_type = sql_type_to_basic_type col.go_type;
    name = col.name;
    json_name = camel_case col.name;
    comment = col.comment;
  }

  -- One turn of the loop.
  unfoldable pub collect_field : ColumnInfo → TypeFields → TypeFields
  unfolding type_field sql_type_to_basic_type
  collect_field col t =
      let field = type_field col in
      let t' = record t {
        all_fields = t.all_fields ++ field ∷ [];
        need_time = (sql_type_to_basic_type col.go_type == "time.Time") || t.need_time;
      } in
      if col.is_primary
        || ((col.name == "created_at")
            || ((col.name == "updated_at") || (col.name == "deleted_at")))
      then t'
      else record t' {
        create_fields = t.create_fields ++ field ∷ [];
        update_fields = t.update_fields ++ field ∷ [];
      }

  unfoldable pub collect_fields : List ColumnInfo → TypeFields → TypeFields
  unfolding collect_field
  collect_fields [] t = t
  collect_fields (col ∷ cols) t = collect_fields cols (collect_field col t)

unfoldable pub primary_key_type : List ColumnInfo → String
primary_key_type [] = "int64"
primary_key_type (col ∷ cols) = if col.is_primary then col.go_type else primary_key_type cols

-- `"Register" + t.StructName + "Routes"`
unfoldable pub register_name : TableInfo → String
register_name t = append "Register" (append t.struct_name "Routes")

-- A line of the file, and the name that `parseExistingRouteFuncs` reads off it.
unfoldable pub func_of_line : String → List String
unfolding trim_space has_prefix contains_text split_at trim_prefix
func_of_line text =
    let line = trim_space text in
    if has_prefix line "func Register" && contains_text line "Routes("
    then (elim (split_at b'(' line) [ [] ↦ [] | first ∷ rest ↦ trim_prefix "func " first ∷ [] ])
    else []

unfoldable pub funcs_of_lines : List String → List String
unfolding func_of_line
funcs_of_lines [] = []
funcs_of_lines (line ∷ lines) = func_of_line line ++ funcs_of_lines lines

unfoldable pub parse_existing_route_funcs : String → List String
unfolding funcs_of_lines split_at
parse_existing_route_funcs content = funcs_of_lines (split_at 10 content)

unfoldable pub is_existing : String → List String → Bool
is_existing name [] = false
is_existing name (func ∷ funcs) = (func == name) || is_existing name funcs

-- The loop that leaves out the tables whose function is there.
unfoldable pub new_tables : List String → List TableInfo → List TableInfo
unfolding is_existing register_name
new_tables funcs [] = []
new_tables funcs (t ∷ tables) =
    let rest = new_tables funcs tables in
    if not (is_existing (register_name t) funcs) then t ∷ rest else rest

unfoldable pub add_import : String → String → String
unfolding cut_at drop_first
add_import content new_import = elim (cut_at "import (" content) [
  | none ↦ elim (cut_at "\n" content) [
    | none ↦ content
    | some (package_line, rest) ↦
        append package_line
          (append "\n\nimport (\n\t" (append new_import (append "\n)\n" (drop_first rest))))
  ]
  | some (before, block) ↦ elim (cut_at ")" block) [
    | none ↦ content
    | some (imports, rest) ↦
        append before (append imports (append "\t" (append new_import (append "\n" rest))))
  ]
]

unfoldable pub ensure_each : List String → String → String
unfolding add_import contains_text
ensure_each [] content = content
ensure_each (imp ∷ imports) content =
    ensure_each imports (if contains_text content imp then content else add_import content imp)

unfoldable pub quoted : String → String
quoted s = append "\"" (append s "\"")

unfoldable pub ensure_imports : String → String → String
unfolding ensure_each quoted
ensure_imports handler_import content =
    ensure_each
      (quoted "github.com/gin-gonic/gin"
        ∷ quoted "gorm.io/gorm"
        ∷ (if handler_import == "" then [] else quoted handler_import ∷ []))
      content

unfoldable pub routes_header : String → String → String
unfolding quoted
routes_header pkg handler_import = append "package " (
    append pkg (
      append "\n\nimport (\n\t\"github.com/gin-gonic/gin\"\n\t\"gorm.io/gorm\"\n" (
        append
          (if handler_import == "" then "" else append "\n\t" (append (quoted handler_import) "\n"))
          ")\n")))

-- The line of the function's head.
unfoldable pub func_line : TableInfo → String
unfolding register_name
func_line t = append "func " (append (register_name t) "(r *gin.RouterGroup, db *gorm.DB) {")

unfoldable pub route_body : Bool → TableInfo → String
route_body use_handler_pkg t = append "\th := " (
    append (if use_handler_pkg then "handler." else "") (
      append "New" (
        append t.struct_name (
          append "Handler(db)\n\tg := r.Group(\"/" (
            append t.name
              "s\")\n\t{\n\t\tg.POST(\"\", h.Create)\n\t\tg.GET(\"/:id\", h.Get)\n\t\tg.GET(\"\", h.List)\n\t\tg.PUT(\"/:id\", h.Update)\n\t\tg.DELETE(\"/:id\", h.Delete)\n\t}\n}\n")))))

-- The template of one table.
unfoldable pub route_text : Bool → TableInfo → String
unfolding func_line route_body register_name
route_text use_handler_pkg t = append "\n" (
    append (append "// " (append (register_name t) (append " 注册 " (append t.comment " 路由"))))
      (append "\n" (append (func_line t) (append "\n" (route_body use_handler_pkg t)))))

unfoldable pub append_route_funcs : Bool → List TableInfo → String → String
unfolding route_text
append_route_funcs use_handler_pkg [] content = content
append_route_funcs use_handler_pkg (t ∷ tables) content =
    append_route_funcs use_handler_pkg tables (append content (route_text use_handler_pkg t))

-- The settings that `generateRoutes` reads off the configuration.
pub record RoutesConfig : Type 0 where
  pub routes_package : String
  pub use_handler_package : Bool
  pub handler_import : String

-- `module_path` is `path.Join(moduleName, "cmd", serviceName, "handler")`.
unfoldable pub routes_config : String → String → RoutesConfig
unfolding trim_space
routes_config service_name module_path =
    if not (trim_space service_name == "")
    then record {
      routes_package = "main";
      use_handler_package = true;
      handler_import = module_path;
    }
    else record { routes_package = "handler"; use_handler_package = false; handler_import = "" }

-- `generateRoutes`: none is a file that does not exist. The file after it, and the tables appended.
unfoldable pub generate_routes :
    RoutesConfig → List TableInfo → Option String → Option String × List TableInfo
unfolding parse_existing_route_funcs new_tables routes_header ensure_imports append_route_funcs
generate_routes cfg tables file =
    let funcs : List String = elim file [
      | none ↦ []
      | some content ↦ parse_existing_route_funcs content
    ] in
    let base : String = elim file [
      | none ↦ routes_header cfg.routes_package cfg.handler_import
      | some content ↦ ensure_imports cfg.handler_import content
    ] in
    elim (new_tables funcs tables) [
      | [] ↦ (file, [])
      | t ∷ rest ↦ (some (append_route_funcs cfg.use_handler_package (t ∷ rest) base), t ∷ rest)
    ]
