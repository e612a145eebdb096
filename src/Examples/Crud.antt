-- ===== src/Examples/Crud.antt =====
-- Examples about cmd/goupter/internal/gen/crud.go.
use goupter.Prelude.{◌≡◌, refl, String, Bool, true, false, none, some, [], ◌∷◌, map}
use goupter.Codegen.Table.{ColumnInfo, TableInfo}
use goupter.Codegen.Strings.{count_of}
use goupter.Codegen.Crud.{
  TypeFields, collect_fields, primary_key_type, parse_existing_route_funcs, add_import,
  routes_config, generate_routes,
}
use goupter.Codegen.CrudLaws.{generate_routes_again}

abbrev column : String → String → Bool → ColumnInfo
column name type is_primary = record {
  name = name;
  type = type;
  go_type = type;
  comment = "";
  nullable = false;
  is_primary = is_primary;
  default = none;
  extra = "";
  tag = "";
  field_name = name;
}

abbrev table : String → TableInfo
table name = record {
  name = name;
  raw_name = name;
  comment = name;
  columns =
      column "id" "int64" true
      ∷ column "price" "float64" false
      ∷ column "created_at" "time.Time" false
      ∷ [];
  primary_key = "id";
  package_name = "model";
  struct_name = name;
  need_time = true;
  need_sql = false;
  geometry_columns = [];
}

abbrev fields : TypeFields
unfolding collect_fields
fields =
    collect_fields (λ s. s) (table "item").columns
      (record { all_fields = []; create_fields = []; update_fields = []; need_time = false })

item_fields :
    (map (λ f. f.name) fields.all_fields ≡ "id" ∷ "price" ∷ "created_at" ∷ [])
    × (map (λ f. f.name) fields.create_fields ≡ "price" ∷ [])
    × (fields.need_time ≡ true)
unfolding fields
item_fields = (refl, refl, refl)

generate_routes_again_example :
    generate_routes
      (routes_config "shop" "m/cmd/shop/handler")
      (table "Item" ∷ table "Order" ∷ [])
      (generate_routes
        (routes_config "shop" "m/cmd/shop/handler")
        (table "Item" ∷ table "Order" ∷ [])
        none).0
    ≡ (
      (generate_routes
          (routes_config "shop" "m/cmd/shop/handler")
          (table "Item" ∷ table "Order" ∷ [])
          none).0,
      [],
    )
unfolding count_of
generate_routes_again_example =
    generate_routes_again (routes_config "shop" "m/cmd/shop/handler")
      (table "Item" ∷ table "Order" ∷ []) none ((refl, refl), ((refl, refl), tt)) (λ content h. cc)

-- A file with the function of one of two tables, and an import that is there under another path.
old_file :
    map
      (λ t. t.name)
      (generate_routes
        (routes_config "" "")
        (table "Item" ∷ table "Order" ∷ [])
        (some "package handler\n\nfunc RegisterItemRoutes(r, db) {\n}\n")).1
    ≡ "Order" ∷ []
unfolding generate_routes routes_config
old_file = refl

one_import :
    add_import "package x\n\nimport (\n\t\"a\"\n)\n" "\"b\""
    ≡ "package x\n\nimport (\n\t\"a\"\n\t\"b\"\n)\n"
unfolding add_import
one_import = refl

no_block :
    add_import "package x\nvar y int\n" "\"b\"" ≡ "package x\n\nimport (\n\t\"b\"\n)\nvar y int\n"
unfolding add_import
no_block = refl

-- A function with a receiver or with another name is not one of these.
other_funcs :
    parse_existing_route_funcs "func (g *G) RegisterItemRoutes(r) {\nfunc RegisterAll() {\n" ≡ []
unfolding parse_existing_route_funcs
other_funcs = refl

key_type : primary_key_type (table "item").columns ≡ "int64"
unfolding primary_key_type
key_type = refl
