-- ===== src/Database/Mssql/Schema.antt =====
-- The tables of SQL Server and the statements that make them (`_quote_identifier`,
-- `_column_type_sql`, `_build_create_table_sql` of services/worker/modules/mssql/handler.py).
use tmask_tt.Base.{
  ℕ, suc, String, ◌<>◌, Bool, true, false, ◌&&◌, ◌||◌, Option, none, some, List, [], ◌∷◌, ◌++◌, map,
  ◌==◌, str_eq, is_some, non_empty, if◌then◌else◌,
}
use tmask_tt.Base.Str.{show, join, double_char}
use tmask_tt.Masking.{Length, chars, minus}

-- A row that the query on INFORMATION_SCHEMA.COLUMNS gives.
pub record ColumnRow : Type 0 where
  pub column_name : String
  pub data_type : String
  pub character_maximum_length : Option Length
  pub numeric_precision : Option ℕ
  pub numeric_scale : Option ℕ
  pub is_nullable : String

-- A column as `_introspect_table` keeps it.
pub record Column : Type 0 where
  pub name : String
  pub data_type : String
  pub character_maximum_length : Option Length
  pub numeric_precision : Option ℕ
  pub numeric_scale : Option ℕ
  pub is_nullable : Bool

pub record TableSchema : Type 0 where
  pub columns : List Column
  pub primary_key : List String

unfoldable pub column_of : ColumnRow → Column
column_of r = record {
  name = r.column_name;
  data_type = r.data_type;
  character_maximum_length = r.character_maximum_length;
  numeric_precision = r.numeric_precision;
  numeric_scale = r.numeric_scale;
  is_nullable = str_eq r.is_nullable "YES";
}

-- `_quote_identifier`
unfoldable pub quote_identifier : String → String
unfolding double_char
quote_identifier name = "[" <> (double_char b']' name <> "]")

-- `_TYPES_WITH_LENGTH`, `_TYPES_WITH_PRECISION_SCALE`
abbrev has_length : String → Bool
has_length t =
    str_eq t "varchar"
    || str_eq t "nvarchar"
    || str_eq t "char"
    || str_eq t "nchar"
    || str_eq t "varbinary"
    || str_eq t "binary"

abbrev has_precision : String → Bool
has_precision t = str_eq t "decimal" || str_eq t "numeric"

abbrev number_or_none : Option ℕ → String
number_or_none none = "None"
number_or_none (some n) = show n

-- `"max" if length == -1 else length`
unfoldable pub length_sql : Length → String
length_sql (chars n) = show n
length_sql (minus n) = if n == 0 then "max" else "-" <> show (suc n)

-- `bool(col['character_maximum_length'])`
abbrev given_length : Option Length → Bool
given_length none = false
given_length (some (chars n)) = if n == 0 then false else true
given_length (some (minus n)) = true

abbrev length_text : Option Length → String
unfolding length_sql
length_text none = "None"
length_text (some l) = length_sql l

-- `_column_type_sql`
unfoldable pub column_type_sql : Column → String
unfolding length_text
column_type_sql c =
    if has_length c.data_type && given_length c.character_maximum_length
    then c.data_type <> ("(" <> (length_text c.character_maximum_length <> ")"))
    else if has_precision c.data_type && is_some c.numeric_precision
    then c.data_type
      <> ("("
          <> (number_or_none c.numeric_precision
              <> ("," <> (number_or_none c.numeric_scale <> ")"))))
    else c.data_type

unfoldable pub column_line : Column → String
unfolding quote_identifier column_type_sql
column_line c =
    quote_identifier c.name
    <> (" " <> (column_type_sql c <> (if c.is_nullable then " NULL" else " NOT NULL")))

-- The line of the primary key, where there is one.
unfoldable pub key_lines : List String → List String
unfolding quote_identifier
key_lines names =
    if non_empty names
    then ("PRIMARY KEY (" <> (join ", " (map quote_identifier names) <> ")")) ∷ []
    else []

-- `_build_create_table_sql`
unfoldable pub build_create_table_sql : String → TableSchema → String
unfolding column_line key_lines quote_identifier
build_create_table_sql table_name schema =
    let quoted_table = quote_identifier table_name in
    let lines = map column_line schema.columns ++ key_lines schema.primary_key in
    "DROP TABLE IF EXISTS "
    <> (quoted_table
        <> (";\nCREATE TABLE "
            <> (quoted_table <> (" (\n    " <> (join ",\n    " lines <> "\n);\n")))))
