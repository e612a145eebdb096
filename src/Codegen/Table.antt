-- ===== src/Codegen/Table.antt =====
-- `getTableInfo` of cmd/goupter/internal/gen/model.go, on the rows that the database gives. The naming of
-- fields, `toCamelCase` and `toSnakeCase`, and the look for a text in another are parameters.
use Prim.Native.String.{len, slice}
use goupter.Prelude.{
  append, String, Bool, true, false, Option, List, [], ◌∷◌, ◌++◌, ◌==◌, string_key, if◌then◌else◌,
}
use goupter.Config.Values.{join}
use goupter.Middleware.Auth.{begins_with}
use goupter.Codegen.Types.{mysql_type_to_go_type}

-- A row of `information_schema.COLUMNS`, as it is scanned; `default` is none for a null.
pub record Row : Type 0 where
  pub name : String
  pub type : String
  pub comment : String
  pub nullable : String
  pub column_key : String
  pub default : Option String
  pub extra : String

pub record ColumnInfo : Type 0 where
  pub name : String
  pub type : String
  pub go_type : String
  pub comment : String
  pub nullable : Bool
  pub is_primary : Bool
  pub default : Option String
  pub extra : String
  pub tag : String
  pub field_name : String

pub record TableInfo : Type 0 where
  pub name : String
  pub raw_name : String
  pub comment : String
  pub columns : List ColumnInfo
  pub primary_key : String
  pub package_name : String
  pub struct_name : String
  pub need_time : Bool
  pub need_sql : Bool
  pub geometry_columns : List String

-- `strings.TrimPrefix`
unfoldable pub trim_prefix : String → String → String
unfolding begins_with
trim_prefix prefix s = if begins_with prefix s then slice s (len prefix) (len s) else s

unfoldable pub display_name : String → String → String
unfolding trim_prefix
display_name prefix table =
    if prefix == "" then table else trim_prefix "_" (trim_prefix prefix table)

module _ (to_lower : String → String) (to_camel_case : String → Bool → String)
    (to_snake_case : String → String) (contains : String → String → Bool) where
  unfoldable pub tag_parts : ColumnInfo → List String
  tag_parts col =
      append "column:" col.name
      ∷ (if col.is_primary
          then "primaryKey"
            ∷ (if contains col.extra "auto_increment" then "autoIncrement" ∷ [] else [])
          else [])

  unfoldable pub build_gorm_tag : ColumnInfo → String
  unfolding tag_parts join
  build_gorm_tag col = append "`gorm:\"" (
      append (join (tag_parts col) ";")
        (append "\" json:\"" (append (to_snake_case col.name) "\"`")))

  unfoldable pub column_of : Row → ColumnInfo
  unfolding mysql_type_to_go_type build_gorm_tag
  column_of row =
      let col : ColumnInfo = record {
        name = row.name;
        type = row.type;
        go_type = mysql_type_to_go_type to_lower row.type (row.nullable == "YES");
        comment = row.comment;
        nullable = row.nullable == "YES";
        is_primary = row.column_key == "PRI";
        default = row.default;
        extra = row.extra;
        tag = "";
        field_name = to_camel_case row.name true;
      } in
      record col { tag = build_gorm_tag col }

  -- One turn of the loop.
  unfoldable pub add_column : TableInfo → ColumnInfo → TableInfo
  add_column info col = record info {
    primary_key = if col.is_primary then col.name else info.primary_key;
    need_time = if col.go_type == "time.Time" then true else info.need_time;
    need_sql = if begins_with "sql.Null" col.go_type then true else info.need_sql;
    geometry_columns =
        if col.go_type == "model.Geometry"
        then info.geometry_columns ++ col.name ∷ []
        else info.geometry_columns;
    columns = info.columns ++ col ∷ [];
  }

  unfoldable pub add_rows : TableInfo → List Row → TableInfo
  unfolding column_of add_column
  add_rows info [] = info
  add_rows info (row ∷ rows) = add_rows (add_column info (column_of row)) rows

  -- `comment` is the table's, empty for a null or no row.
  unfoldable pub get_table_info : String → String → String → String → List Row → TableInfo
  unfolding display_name add_rows
  get_table_info package_name prefix table comment rows =
      add_rows
        (record {
          name = display_name prefix table;
          raw_name = table;
          comment = comment;
          columns = [];
          primary_key = "";
          package_name = package_name;
          struct_name = to_camel_case (display_name prefix table) true;
          need_time = false;
          need_sql = false;
          geometry_columns = [];
        })
        rows
