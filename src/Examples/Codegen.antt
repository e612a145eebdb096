-- ===== src/Examples/Codegen.antt =====
-- Examples about cmd/goupter/internal/gen/model.go. Names and cases are left as they are.
use goupter.Prelude.{String, ◌≡◌, refl, Bool, true, none, List, [], ◌∷◌, map, ◌==◌, string_key}
use goupter.Codegen.Types.{mysql_type_to_go_type, nullable_type, type_map}
use goupter.Codegen.Table.{Row, get_table_info}
use goupter.Codegen.TableLaws.{
  any, names_of, last_name, is_time, is_sql, is_geometry, column_for, get_table_info-Describes,
}
use goupter.Prelude.Dict.{lookup}

abbrev as_is : String → String
as_is s = s

abbrev camel : String → Bool → String
camel s b = s

abbrev has_text : String → String → Bool
has_text s t = s == t

abbrev rows : List Row
rows =
    record {
      name = "id";
      type = "bigint";
      comment = "";
      nullable = "NO";
      column_key = "PRI";
      default = none;
      extra = "auto_increment";
    }
    ∷ record {
      name = "seen";
      type = "datetime";
      comment = "";
      nullable = "YES";
      column_key = "";
      default = none;
      extra = "";
    }
    ∷ record {
      name = "place";
      type = "point";
      comment = "";
      nullable = "NO";
      column_key = "";
      default = none;
      extra = "";
    }
    ∷ []

seen_type : mysql_type_to_go_type as_is "datetime" true ≡ "sql.NullTime"
unfolding mysql_type_to_go_type nullable_type type_map lookup
seen_type = refl

get_table_info-Describes_example :
    let info = get_table_info as_is camel as_is has_text "model" "app" "app_visit" "" rows in
    let cols = map (column_for as_is camel as_is has_text) rows in
    (info.columns ≡ cols)
    × (info.need_time ≡ any is_time cols)
    × (info.need_sql ≡ any is_sql cols)
    × (info.geometry_columns ≡ names_of is_geometry cols)
    × (info.primary_key ≡ last_name (λ col. col.is_primary) "" cols)
get_table_info-Describes_example =
    get_table_info-Describes as_is camel as_is has_text "model" "app" "app_visit" "" rows
