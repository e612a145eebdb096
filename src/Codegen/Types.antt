-- ===== src/Codegen/Types.antt =====
-- The type maps of cmd/goupter/internal/gen/model.go.
use goupter.Prelude.{
  String, Bool, not, ◌&&◌, ◌||◌, none, some, List, [], ◌∷◌, ◌==◌, string_key, if◌then◌else◌,
}
use goupter.Prelude.Dict.{lookup}

unfoldable pub type_map : List (String × String)
type_map =
    ("tinyint", "int8")
    ∷ ("smallint", "int16")
    ∷ ("mediumint", "int32")
    ∷ ("int", "int32")
    ∷ ("integer", "int32")
    ∷ ("bigint", "int64")
    ∷ ("float", "float32")
    ∷ ("double", "float64")
    ∷ ("decimal", "float64")
    ∷ ("numeric", "float64")
    ∷ ("char", "string")
    ∷ ("varchar", "string")
    ∷ ("text", "string")
    ∷ ("tinytext", "string")
    ∷ ("mediumtext", "string")
    ∷ ("longtext", "string")
    ∷ ("blob", "[]byte")
    ∷ ("tinyblob", "[]byte")
    ∷ ("mediumblob", "[]byte")
    ∷ ("longblob", "[]byte")
    ∷ ("binary", "[]byte")
    ∷ ("varbinary", "[]byte")
    ∷ ("date", "time.Time")
    ∷ ("datetime", "time.Time")
    ∷ ("timestamp", "time.Time")
    ∷ ("time", "string")
    ∷ ("year", "int16")
    ∷ ("bit", "[]byte")
    ∷ ("bool", "bool")
    ∷ ("boolean", "bool")
    ∷ ("json", "string")
    ∷ ("enum", "string")
    ∷ ("set", "string")
    ∷ ("geometry", "model.Geometry")
    ∷ ("point", "model.Geometry")
    ∷ ("linestring", "model.Geometry")
    ∷ ("polygon", "model.Geometry")
    ∷ ("multipoint", "model.Geometry")
    ∷ ("multilinestring", "model.Geometry")
    ∷ ("multipolygon", "model.Geometry")
    ∷ ("geometrycollection", "model.Geometry")
    ∷ []

-- The switch over the types of a column that may be null.
unfoldable pub nullable_type : String → String
nullable_type go_type =
    if (go_type == "int8")
      || ((go_type == "int16") || ((go_type == "int32") || (go_type == "int64")))
    then "sql.NullInt64"
    else if (go_type == "float32") || (go_type == "float64")
    then "sql.NullFloat64"
    else if go_type == "bool"
    then "sql.NullBool"
    else if go_type == "time.Time"
    then "sql.NullTime"
    else go_type

-- `to_lower` is `strings.ToLower`.
unfoldable pub mysql_type_to_go_type : (String → String) → String → Bool → String
unfolding type_map nullable_type
mysql_type_to_go_type to_lower mysql_type nullable =
    let go_type : String = elim (lookup (to_lower mysql_type) type_map) [
      | none ↦ "string"
      | some t ↦ t
    ] in
    if nullable && (not (go_type == "[]byte") && not (go_type == "string"))
    then nullable_type go_type
    else go_type

unfoldable pub sql_type_to_basic_type : String → String
sql_type_to_basic_type go_type =
    if go_type == "sql.NullString"
    then "string"
    else if go_type == "sql.NullInt64"
    then "int64"
    else if go_type == "sql.NullInt32"
    then "int32"
    else if go_type == "sql.NullFloat64"
    then "float64"
    else if go_type == "sql.NullBool"
    then "bool"
    else if go_type == "sql.NullTime"
    then "time.Time"
    else if go_type == "model.Geometry"
    then "string"
    else go_type
