-- ===== src/Database/Mysql.antt =====
-- The handler of MySQL (services/worker/modules/mysql/handler.py, config.py beside it).
pub mod Values
pub mod Quotes
pub mod Stream
use tmask_tt.Base.{
  ℕ, ◌+◌, ◌-◌, ◌*◌, String, ◌<>◌, Bool, true, false, ◌&&◌, ◌||◌, not, Option, none, some, List, [],
  ◌∷◌, ◌++◌, ◌==◌, ltb, leb, truthy, non_empty, if◌then◌else◌,
}
use tmask_tt.Base.Str.{show, double_char}
use tmask_tt.Base.Text.{Text, codes, lower, has_sub, strip, take_while}
use tmask_tt.Masking.{Lengths}
use tmask_tt.Worker.{
  World, Exn, transfer_error, Eff, pure, raise, ◌>>=◌, ◌>>◌, raise_if, when, finally, emit, ask,
  warn, logged_text,
}
use tmask_tt.Worker.Params.{ExitCode, show_code}
use tmask_tt.Database.Params.{DbParams, Drivers, dest, has_table, connect, catch_driver, close}
use tmask_tt.Database.Pipe.{Wording, run_pipe, with_retries, max_retries, retry_delay}
use tmask_tt.Database.Counts.{verify_counts, tables_by, fetch_column_lengths}
use tmask_tt.Database.Mysql.Stream.{relay_line, empty_stream}

-- MYSQL_DUMP_BASE_FLAGS
abbrev pub base_flags : List String
base_flags = "--single-transaction" ∷ "--set-gtid-purged=OFF" ∷ "--skip-lock-tables" ∷ []

abbrev table_argument : Option String → List String
table_argument none = []
table_argument (some t) = if truthy t then t ∷ [] else []

-- `_build_mysqldump_cmd`
unfoldable pub build_mysqldump_cmd : DbParams → List String
build_mysqldump_cmd p =
    ("mysqldump" ∷ "-h" ∷ p.source_host ∷ "-P" ∷ show p.source_port ∷ "-u" ∷ p.source_username ∷ [])
    ++ (base_flags
        ++ ((if non_empty p.masking_rules
              then "--skip-extended-insert" ∷ "--complete-insert" ∷ []
              else [])
            ++ (p.source_db_name ∷ table_argument p.table_name)))

-- `_build_mysql_cmd`
unfoldable pub build_mysql_cmd : DbParams → List String
build_mysql_cmd p =
    "mysql"
    ∷ "-h"
    ∷ p.dest_host
    ∷ "-P"
    ∷ show p.dest_port
    ∷ "-u"
    ∷ p.dest_username
    ∷ p.dest_db_name
    ∷ []

abbrev no_table : Option String → String
no_table none = ""
no_table (some t) = t

-- `_check_output`
unfoldable pub check_output : DbParams → String → Eff (Unit {0})
unfolding lower has_sub
check_output p output =
    let lowered = lower (codes output) in
    if has_sub (codes "access denied") lowered
    then raise (transfer_error "AUTH FAILED — sprawdź dane uwierzytelniania")
    else raise_if (has_table p && has_sub (codes "doesn't exist") lowered)
        (transfer_error ("TABLE NOT FOUND: " <> no_table p.table_name))

-- `int(s)` behind the sign: digits, with single underscores between them.
unfoldable pub int_from : Bool → ℕ → Text → Option ℕ
int_from after_digit n [] = if after_digit then some n else none
int_from after_digit n (c ∷ s) =
    let more = int_from true (n * 10 + (c - b'0')) s in
    let skipped = int_from false n s in
    if leb b'0' c && leb c b'9' then more else if (c == b'_') && after_digit then skipped else none

-- `int(s) < bound`, for a text of ASCII, or none where `int` raises.
unfoldable pub int_below : ℕ → Text → Option Bool
unfolding int_from
int_below bound [] = none
int_below bound (c ∷ s) =
    elim (int_from false 0 (if (c == b'+') || (c == b'-') then s else c ∷ s)) [
      | none ↦ none
      | some n ↦ some (if c == b'-' then ltb 0 (bound + n) else ltb n bound)
    ]

abbrev exits_text : ExitCode → ExitCode → String
exits_text dump mysql = "dump=" <> (show_code dump <> (", mysql=" <> show_code mysql))

-- The messages of `execute`.
abbrev pub wording : Wording
wording = record {
  starting = λ n. "Starting mysqldump|mysql (attempt " <> (show n <> ")");
  retrying = λ dump mysql.
      "mysqldump/mysql failed ("
      <> (exits_text dump mysql <> ("), retrying in " <> (show retry_delay <> "s...")));
  failed = λ dump mysql.
      "TRANSFER FAILED — mysqldump/mysql failed after "
      <> (show max_retries
          <> (" attempts (dump exit="
              <> (show_code dump <> (", mysql exit=" <> (show_code mysql <> ")")))));
}

-- `except (pymysql.Error, ValueError, IndexError) as e`, with the text of the error.
unfoldable pub version_unknown : Text → Eff Bool
version_unknown text = do
  emit (
      logged_text warn (
        codes
          "VERSION CHECK FAILED — nie udało się wykryć wersji serwera docelowego dla sprawdzenia zgodności COLLATION: "
        ++ (text ++ codes ". Zakładam brak konfliktu.")))
  pure false

-- `int(version_str.split('.')[0]) < 8`. The text of the `ValueError` quotes the part as `repr` writes
-- one with no quote and no backslash.
unfoldable pub is_below_8 : Text → Eff Bool
unfolding version_unknown int_below strip take_while
is_below_8 version =
    let major = take_while (λ c. not (c == b'.')) version in
    elim (int_below 8 (strip major)) [
      | some below ↦ pure below
      | none ↦
          version_unknown
            (codes "invalid literal for int() with base 10: '" ++ (major ++ codes "'"))
    ]

-- `_quote_identifier`
unfoldable pub quote_identifier : String → String
unfolding double_char
quote_identifier name = "`" <> (double_char b'`' name <> "`")

module _ (D : Drivers) (p : DbParams) where
  -- `_dest_needs_collation_strip`; the `with` block closes the connection.
  unfoldable pub dest_needs_collation_strip : Eff Bool
  unfolding is_below_8 version_unknown
  dest_needs_collation_strip =
      catch_driver
        (do connect D p dest; version ← finally (ask D.version) close; is_below_8 version)
        (λ m. version_unknown (codes m))

  -- `_run_pipe`, with the lengths of the columns and whether collations are stripped
  unfoldable pub run_dump : Lengths → Bool → Eff (ExitCode × ExitCode × String)
  run_dump lengths strips =
      run_pipe D (relay_line D.faker p.masking_rules lengths (not (has_table p)) strips)
        empty_stream (build_mysqldump_cmd p) (build_mysql_cmd p)

  -- `_verify_row_counts`
  unfoldable pub verify_row_counts : Eff (Unit {0})
  unfolding quote_identifier
  verify_row_counts =
      verify_counts D p (λ table. "SELECT COUNT(*) FROM " <> quote_identifier table)
        (tables_by D p "SELECT table_name FROM information_schema.tables WHERE table_schema = %s"
          (p.source_db_name ∷ []))

  -- `execute`
  unfoldable pub execute : Eff (Unit {0})
  unfolding run_dump dest_needs_collation_strip verify_row_counts
  execute = do
    lengths ← fetch_column_lengths D p
    strips ← dest_needs_collation_strip
    with_retries wording (run_dump lengths strips) (check_output p)
        (when p.verify_row_count verify_row_counts)
