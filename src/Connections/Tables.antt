-- ===== src/Connections/Tables.antt =====
-- The tables and columns of a database that the pages offer (services/web/apps/connections/pg_utils.py,
-- mysql_utils.py, mssql_utils.py; `connection_db_tables` of connections/views.py and `masking_columns` of
-- masking/views.py).
use tmask_tt.Base.{
  ℕ, String, ◌<>◌, Bool, true, false, ◌+◌, ◌*◌, ◌-◌, leb, ◌&&◌, ◌||◌, not, Option, none, some, List,
  [], ◌∷◌, map, any, str_eq, truthy, ◌==◌, if◌then◌else◌, ◌≡◌, arith, refl,
}
use tmask_tt.Base.Str.{strip}
use tmask_tt.Base.Text
use tmask_tt.Base.Text.{Text, codes, text_eq, lower, has_sub}
use tmask_tt.Database.Task.{Kind, ssh, database, Engine, postgres, mysql, mssql}
use tmask_tt.Database.Mssql.{conn_string}
use tmask_tt.Masking.{is_provider}
use tmask_tt.Pages.{find_row}
use tmask_tt.Worker.{
  World, Result, ok, err, driver_error, operational_error, opened, Eff, ◌>>=◌, ◌>>◌, pure, emit,
  ask, finally,
}
use tmask_tt.Connections.{Connection}
use tmask_tt.Connections.Browse.{close_one}

-- _SUGGESTION_KEYWORDS
abbrev pub keywords : List (List String × String)
keywords =
    ("first_name" ∷ "given_name" ∷ "firstname" ∷ [], "first_name")
    ∷ ("last_name" ∷ "surname" ∷ "lastname" ∷ [], "last_name")
    ∷ ("email" ∷ "mail" ∷ [], "email")
    ∷ ("phone" ∷ "tel" ∷ "mobile" ∷ [], "phone_number")
    ∷ ("street" ∷ "address1" ∷ "address_line" ∷ [], "street_address")
    ∷ ("city" ∷ "town" ∷ [], "city")
    ∷ ("zip" ∷ "postcode" ∷ "postal" ∷ [], "postcode")
    ∷ ("country" ∷ [], "country")
    ∷ ("company" ∷ "employer" ∷ "organization" ∷ [], "company")
    ∷ ("job" ∷ "title" ∷ "position" ∷ [], "job_title")
    ∷ ("name" ∷ "fullname" ∷ [], "name")
    ∷ []

unfoldable pub first_match : Text → List (List String × String) → Option String
unfolding has_sub
first_match lowered [] = none
first_match lowered ((words, provider) ∷ rest) =
    let later = first_match lowered rest in
    if any (λ w. has_sub (codes w) lowered) words then some provider else later

-- `suggest_provider`
unfoldable pub suggest_provider : Text → Option String
unfolding first_match lower
suggest_provider column_name = first_match (lower column_name) keywords

-- The types that each engine can mask.
abbrev pub maskable_types : Engine → List String
maskable_types postgres = "character varying" ∷ "varchar" ∷ "text" ∷ "char" ∷ "character" ∷ []
maskable_types mysql = "varchar" ∷ "char" ∷ "text" ∷ "tinytext" ∷ "mediumtext" ∷ "longtext" ∷ []
maskable_types mssql = "varchar" ∷ "nvarchar" ∷ "char" ∷ "nchar" ∷ "text" ∷ "ntext" ∷ []

-- What the drivers are asked in a world: to connect, and for the rows of a query with its arguments. The
-- drivers of PostgreSQL and MySQL take the columns of the connection, that of SQL Server a text.
pub record Catalog : Type 0 where
  pub connect : World → Engine → Connection → Result (Unit {0})
  pub connect_mssql : World → String → Result (Unit {0})
  pub names : World → String → List String → Result (List Text)
  pub columns : World → String → List String → Result (List (Text × String))

pub record Column : Type 0 where
  pub name : Text
  pub data_type : String
  pub maskable : Bool
  pub suggested_provider : Option String

abbrev tables_query : Engine → Connection → String × List String
tables_query postgres c =
    ("SELECT tablename FROM pg_tables WHERE schemaname = 'public' ORDER BY tablename", [])
tables_query mysql c = (
  "SELECT table_name FROM information_schema.tables WHERE table_schema = %s ORDER BY table_name",
  c.db_name ∷ [],
)
tables_query mssql c = (
  "SELECT TABLE_NAME FROM INFORMATION_SCHEMA.TABLES WHERE TABLE_TYPE = 'BASE TABLE' ORDER BY TABLE_NAME",
  [],
)

abbrev columns_query : Engine → Connection → String → String × List String
columns_query postgres c table = (
  "SELECT column_name, data_type FROM information_schema.columns WHERE table_schema = 'public' AND table_name = %s ORDER BY ordinal_position",
  table ∷ [],
)
columns_query mysql c table = (
  "SELECT column_name, data_type FROM information_schema.columns WHERE table_schema = %s AND table_name = %s ORDER BY ordinal_position",
  c.db_name ∷ table ∷ [],
)
columns_query mssql c table = (
  "SELECT COLUMN_NAME, DATA_TYPE FROM INFORMATION_SCHEMA.COLUMNS WHERE TABLE_NAME = ? ORDER BY ORDINAL_POSITION",
  table ∷ [],
)

-- The dictionary of a column.
unfoldable pub column_of : Engine → Text × String → Column
unfolding suggest_provider
column_of engine (name, data_type) = record {
  name = name;
  data_type = data_type;
  maskable = any (λ t. str_eq t data_type) (maskable_types engine);
  suggested_provider = suggest_provider name;
}

module _ (D : Catalog) (c : Connection) where
  unfoldable pub connect_to : Engine → World → Result (Unit {0})
  unfolding conn_string
  connect_to mssql w = D.connect_mssql w (conn_string c.host c.port c.db_name c.username c.password)
  connect_to engine w = D.connect w engine c

  -- A query between `connect` and the `finally` block that closes.
  unfoldable pub with_connection : {A : Type 0} → Engine → (World → Result A) → Eff A
  unfolding connect_to
  with_connection engine query = do
    ask (connect_to engine)
    emit (opened c.host)
    finally (ask query) close_one

  -- The three functions `list_tables`
  unfoldable pub list_tables : Engine → Eff (List Text)
  unfolding with_connection
  list_tables engine =
      let (sql, args) = tables_query engine c in with_connection engine (λ w. D.names w sql args)

  -- The three functions `list_columns`
  unfoldable pub list_columns : Engine → String → Eff (List Column)
  unfolding with_connection column_of
  list_columns engine table = do
    rows ←
        (let (sql, args) = columns_query engine c table in
          with_connection engine (λ w. D.columns w sql args))
    pure (map (column_of engine) rows)

-- `int(text)` of a text of ASCII: white space around it, a sign, and digits with single underscores between
-- them; the sign and the number.
abbrev is_digit : ℕ → Bool
is_digit k = leb b'0' k && leb k b'9'

unfoldable pub read_digits : Bool → ℕ → Text → Option ℕ
read_digits after_digit n [] = if after_digit then some n else none
read_digits after_digit n (k ∷ s) =
    let rest = read_digits (is_digit k) (if is_digit k then n * 10 + (k - b'0') else n) s in
    if is_digit k || ((k == b'_') && after_digit) then rest else none

abbrev signed : Bool → Option ℕ → Option (Bool × ℕ)
signed minus none = none
signed minus (some n) = some (minus, n)

unfoldable pub read_signed : Text → Option (Bool × ℕ)
unfolding read_digits
read_signed [] = none
read_signed (k ∷ s) =
    if k == b'-'
    then signed true (read_digits false 0 s)
    else if k == b'+'
    then signed false (read_digits false 0 s)
    else signed false (read_digits false 0 (k ∷ s))

unfoldable pub read_int : Text → Option (Bool × ℕ)
unfolding read_signed Text.strip
read_int s = read_signed (Text.strip s)

abbrev connection_key : Connection → ℕ
connection_key c = c.pk

-- `Connection.objects.filter(pk=…, kind__in=…).first()` with its engine; no row has a negative key.
abbrev of_database : Kind → Connection → Option (Engine × Connection)
of_database ssh c = none
of_database (database engine) c = some (engine, c)

unfoldable pub find_database : Option (Bool × ℕ) → List Connection → Option (Engine × Connection)
unfolding find_row
find_database none rows = none
find_database (some (minus, n)) rows =
    if minus && not (n == 0)
    then none
    else elim (find_row connection_key n rows) [ none ↦ none | some c ↦ of_database c.kind c ]

-- `except (psycopg2.Error, pymysql.Error, pyodbc.Error) as e`: what is listed and the text of the error.
unfoldable pub or_error {ℓ} : {A : Type ℓ} → Result (List A) → Result (List A × Option String)
or_error (ok rows) = ok (rows, none)
or_error (err (driver_error m)) = ok ([], some (strip ("Błąd połączenia z bazą źródłową — " <> m)))
or_error (err (operational_error m)) =
    ok ([], some (strip ("Błąd połączenia z bazą źródłową — " <> m)))
or_error (err e) = err e

-- What `_db_tables_options.html` shows.
pub record TableOptions : Type 0 where
  pub tables : List Text
  pub source_connection : Option (Bool × ℕ)
  pub error : Option String

abbrev table_options : Option (Bool × ℕ) → Result (List Text × Option String) → Result TableOptions
table_options chosen (ok (tables, error)) =
    ok (record { tables = tables; source_connection = chosen; error = error })
table_options chosen (err e) = err e

-- `int(…)` of a parameter that may be missing or empty.
unfoldable pub chosen_pk : Option Text → Option (Bool × ℕ)
unfolding read_int
chosen_pk none = none
chosen_pk (some raw) = read_int raw

-- `connection_db_tables`, behind `require_role`.
unfoldable pub connection_db_tables :
    Catalog → List Connection → Option Text → World → Result TableOptions × World
unfolding chosen_pk find_database list_tables or_error
connection_db_tables D rows raw w =
    let chosen = chosen_pk raw in
    elim (find_database chosen rows) [
      | none ↦ (table_options chosen (ok ([], none)), w)
      | some (engine, c) ↦
          let (r, w') = list_tables D c engine w in (table_options chosen (or_error r), w')
    ]

-- `masking_columns` of masking/views.py, behind `require_role`: the columns and the text of the error.
unfoldable pub masking_columns :
    Catalog
    → List Connection
    → Option Text
    → String
    → World
    → Result (List Column × Option String) × World
unfolding chosen_pk find_database list_columns or_error
masking_columns D rows raw table_name w =
    if not (truthy table_name)
    then (ok ([], none), w)
    else elim (find_database (chosen_pk raw) rows) [
      | none ↦ (ok ([], none), w)
      | some (engine, c) ↦ let (r, w') = list_columns D c engine table_name w in (or_error r, w')
    ]

abbrev AreProviders : List (List String × String) → Type 0
AreProviders [] = Unit {0}
AreProviders ((words, provider) ∷ rest) = (is_provider provider ≡ true) × AreProviders rest

first_match-is_provider :
    (lowered : Text) (table : List (List String × String)) (provider : String)
    → AreProviders table
    → first_match lowered table ≡ some provider
    → is_provider provider ≡ true
unfolding first_match
first_match-is_provider lowered [] provider h found = cc
first_match-is_provider lowered ((words, p) ∷ rest) provider (h, hs) found =
    ground (arith, first_match-is_provider lowered rest provider hs)

-- A provider that is suggested for a column is one that the masking engine knows.
pub suggest_provider-is_provider :
    (column_name : Text) (provider : String)
    → suggest_provider column_name ≡ some provider
    → is_provider provider ≡ true
unfolding suggest_provider is_provider
suggest_provider-is_provider column_name provider found =
    first_match-is_provider (lower column_name) keywords provider
      (refl, (refl, (refl, (refl, (refl, (refl, (refl, (refl, (refl, (refl, (refl, tt)))))))))))
      found
