-- ===== src/Codegen/TableLaws.antt =====
-- What cmd/goupter/internal/gen/model.go imports for the columns of a table.
use mathlib.Core.List.{append_assoc, append-nil}
use goupter.Prelude.{
  append, String, ◌≡◌, refl, ap, sym, ◌∙◌, Bool, true, false, ◌||◌, List, [], ◌∷◌, ◌++◌, map, ◌==◌,
  string_key, if◌then◌else◌, arith,
}
use mathlib.Core.Path.{fun_ext, subst}
use goupter.Config.Values.{join}
use goupter.Codegen.Types.{mysql_type_to_go_type}
use goupter.Middleware.Auth.{begins_with}
use goupter.Codegen.Table.{
  Row, ColumnInfo, TableInfo, display_name, tag_parts, build_gorm_tag, column_of, add_column,
  add_rows, get_table_info,
}

-- The test passes for some column.
pub any : (ColumnInfo → Bool) → List ColumnInfo → Bool
any p [] = false
any p (col ∷ cols) = p col || any p cols

-- The names of the columns that pass.
pub names_of : (ColumnInfo → Bool) → List ColumnInfo → List String
names_of p [] = []
names_of p (col ∷ cols) = let rest = names_of p cols in if p col then col.name ∷ rest else rest

pub last_name : (ColumnInfo → Bool) → String → List ColumnInfo → String
last_name p found [] = found
last_name p found (col ∷ cols) = last_name p (if p col then col.name else found) cols

abbrev pub is_time : ColumnInfo → Bool
is_time col = col.go_type == "time.Time"

abbrev pub is_sql : ColumnInfo → Bool
is_sql col = begins_with "sql.Null" col.go_type

abbrev pub is_geometry : ColumnInfo → Bool
is_geometry col = col.go_type == "model.Geometry"

-- The table `after` is `info` with the columns.
pub record Describes (info after : TableInfo) (cols : List ColumnInfo) : Type 0 where
  pub columns : after.columns ≡ info.columns ++ cols
  pub time : after.need_time ≡ (any is_time cols || info.need_time)
  pub sql : after.need_sql ≡ (any is_sql cols || info.need_sql)
  pub geometry : after.geometry_columns ≡ info.geometry_columns ++ names_of is_geometry cols
  pub primary : after.primary_key ≡ last_name (λ col. col.is_primary) info.primary_key cols

either : (a b c : Bool) → (b || (if a then true else c)) ≡ ((a || b) || c)
either a b c = ground arith

or_false : (b : Bool) → (b || false) ≡ b
or_false b = ground arith

listed :
    (b : Bool) (name : String) (xs ys : List String)
    → (if b then xs ++ name ∷ [] else xs) ++ ys ≡ xs ++ (if b then name ∷ ys else ys)
listed true name xs ys = append_assoc xs (name ∷ []) ys
listed false name xs ys = refl

module _ (to_lower : String → String) (to_camel_case : String → Bool → String)
    (to_snake_case : String → String) (contains : String → String → Bool) where
  add_column-Describes :
      (info after : TableInfo) (col : ColumnInfo) (cols : List ColumnInfo)
      → Describes (add_column to_lower to_camel_case to_snake_case contains info col) after cols
      → Describes info after (col ∷ cols)
  unfolding add_column any names_of last_name
  add_column-Describes info after col cols d = record {
    columns = d.columns ∙ append_assoc info.columns (col ∷ []) cols;
    time = d.time ∙ either (is_time col) (any is_time cols) info.need_time;
    sql = d.sql ∙ either (is_sql col) (any is_sql cols) info.need_sql;
    geometry =
        d.geometry
        ∙ listed (is_geometry col) col.name info.geometry_columns (names_of is_geometry cols);
    primary = d.primary;
  }

  add_rows-Describes :
      (info : TableInfo) (rows : List Row)
      → Describes info
          (add_rows to_lower to_camel_case to_snake_case contains info rows)
          (map (column_of to_lower to_camel_case to_snake_case contains) rows)
  unfolding add_rows any names_of last_name
  add_rows-Describes info [] = record {
    columns = sym (append-nil info.columns);
    time = refl;
    sql = refl;
    geometry = sym (append-nil info.geometry_columns);
    primary = refl;
  }
  add_rows-Describes info (row ∷ rows) = add_column-Describes info _ _ _ (
      add_rows-Describes
        (add_column to_lower to_camel_case to_snake_case contains info
          (column_of to_lower to_camel_case to_snake_case contains row))
        rows)

  -- The parts of the tag for gorm, and the tag, of a column that is or is not a primary key and
  -- that the database numbers or not.
  pub gorm_parts : String → Bool → Bool → String
  gorm_parts name true true = append (append "column:" name) ";primaryKey;autoIncrement"
  gorm_parts name true false = append (append "column:" name) ";primaryKey"
  gorm_parts name false numbered = append "column:" name

  pub tag_for : String → Bool → Bool → String
  unfolding gorm_parts
  tag_for name primary numbered = append "`gorm:\"" (
      append (gorm_parts name primary numbered)
        (append "\" json:\"" (append (to_snake_case name) "\"`")))

  -- The column of a row.
  unfoldable pub column_for : Row → ColumnInfo
  unfolding tag_for
  column_for row = record {
    name = row.name;
    type = row.type;
    go_type = mysql_type_to_go_type to_lower row.type (row.nullable == "YES");
    comment = row.comment;
    nullable = row.nullable == "YES";
    is_primary = row.column_key == "PRI";
    default = row.default;
    extra = row.extra;
    tag = tag_for row.name (row.column_key == "PRI") (contains row.extra "auto_increment");
    field_name = to_camel_case row.name true;
  }

  parts-join :
      (name : String) (primary numbered : Bool)
      → join
          (append "column:" name
            ∷ (if primary
                then "primaryKey" ∷ (if numbered then "autoIncrement" ∷ [] else [])
                else []))
          ";"
        ≡ gorm_parts name primary numbered
  unfolding join gorm_parts
  parts-join name true true = refl
  parts-join name true false = refl
  parts-join name false numbered = refl

  column_of-column_for :
      (row : Row) → column_of to_lower to_camel_case to_snake_case contains row ≡ column_for row
  unfolding column_of build_gorm_tag tag_parts column_for tag_for
  column_of-column_for row =
      ap
        (λ (parts : String). record {
          name = row.name;
          type = row.type;
          go_type = mysql_type_to_go_type to_lower row.type (row.nullable == "YES");
          comment = row.comment;
          nullable = row.nullable == "YES";
          is_primary = row.column_key == "PRI";
          default = row.default;
          extra = row.extra;
          tag =
              append "`gorm:\""
                (append parts (append "\" json:\"" (append (to_snake_case row.name) "\"`")));
          field_name = to_camel_case row.name true;
        })
        (parts-join row.name (row.column_key == "PRI") (contains row.extra "auto_increment"))

  columns-column_for :
      (rows : List Row)
      → map (column_of to_lower to_camel_case to_snake_case contains) rows ≡ map column_for rows
  columns-column_for rows = ap (λ (f : Row → ColumnInfo). map f rows) (fun_ext column_of-column_for)

  -- The description of a table has a column for each row, in their order: with the type for Go,
  -- nullable for "YES", a primary key for "PRI", and a tag that names it and says whether it is a
  -- primary key and numbered. It asks for the package `time` exactly if a column has the type
  -- `time.Time`, and for `database/sql` exactly if the type of a column is one of that package; it
  -- lists the geometry columns in order, and names the last primary column.
  pub get_table_info-Describes :
      (package_name prefix table comment : String) (rows : List Row)
      → let info =
          get_table_info to_lower to_camel_case to_snake_case contains package_name prefix table
            comment rows in
        let cols = map column_for rows in
        (info.columns ≡ cols)
        × (info.need_time ≡ any is_time cols)
        × (info.need_sql ≡ any is_sql cols)
        × (info.geometry_columns ≡ names_of is_geometry cols)
        × (info.primary_key ≡ last_name (λ col. col.is_primary) "" cols)
  unfolding get_table_info
  get_table_info-Describes package_name prefix table comment rows =
      let d =
        subst (Describes _ _) (columns-column_for rows) (add_rows-Describes (new_info) rows) in
      (
        d.columns,
        d.time ∙ or_false (any is_time _),
        d.sql ∙ or_false (any is_sql _),
        d.geometry,
        d.primary,
      )
    where
      new_info : TableInfo
      new_info = record {
        name = display_name prefix table;
        raw_name = table;
        comment = comment;
        columns = [];
        primary_key = "";
        package_name = package_name;
        struct_name = to_camel_case (display_name prefix table) true;
        need_time = false;
        need_sql = false;
        geometry_columns = [];
      }
