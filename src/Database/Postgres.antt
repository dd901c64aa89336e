-- ===== src/Database/Postgres.antt =====
-- The handler of PostgreSQL (services/worker/modules/postgres/handler.py, config.py beside it).
pub mod Stream
pub mod Rows
pub mod Dump
use tmask_tt.Base.{
  ℕ, String, ◌<>◌, Bool, true, false, ◌&&◌, not, Option, none, some, List, [], ◌∷◌, ◌++◌, truthy,
  if◌then◌else◌,
}
use tmask_tt.Base.Str.{show}
use tmask_tt.Base.Text.{Text, codes, lower, has_sub}
use tmask_tt.Masking.{Lengths}
use tmask_tt.Worker.{World, Exn, transfer_error, Eff, pure, raise, ◌>>=◌, ◌>>◌, raise_if, when}
use tmask_tt.Worker.Params.{ExitCode, show_code}
use tmask_tt.Database.Params.{DbParams, Drivers, has_table}
use tmask_tt.Database.Pipe.{Wording, run_pipe, with_retries, max_retries, retry_delay}
use tmask_tt.Database.Counts.{verify_counts, tables_by, fetch_column_lengths}
use tmask_tt.Database.Postgres.Stream.{relay_line, empty_stream}

-- PG_DUMP_BASE_FLAGS
abbrev pub base_flags : List String
base_flags = "--clean" ∷ "--if-exists" ∷ "--no-owner" ∷ "--no-privileges" ∷ "--verbose" ∷ []

-- `['--table', p['table_name']]` where it is given, and nothing else.
abbrev table_flag : Option String → List String
table_flag none = []
table_flag (some t) = if truthy t then "--table" ∷ t ∷ [] else []

-- `_build_pg_dump_cmd`
unfoldable pub build_pg_dump_cmd : DbParams → List String
build_pg_dump_cmd p =
    ("pg_dump" ∷ "-h" ∷ p.source_host ∷ "-p" ∷ show p.source_port ∷ "-U" ∷ p.source_username ∷ [])
    ++ (base_flags ++ (table_flag p.table_name ++ (p.source_db_name ∷ [])))

-- `_build_psql_cmd`
unfoldable pub build_psql_cmd : DbParams → List String
build_psql_cmd p =
    "psql"
    ∷ "-h"
    ∷ p.dest_host
    ∷ "-p"
    ∷ show p.dest_port
    ∷ "-U"
    ∷ p.dest_username
    ∷ "-v"
    ∷ "ON_ERROR_STOP=1"
    ∷ p.dest_db_name
    ∷ []

abbrev no_table : Option String → String
no_table none = ""
no_table (some t) = t

-- `_check_output`
unfoldable pub check_output : DbParams → String → Eff (Unit {0})
unfolding lower has_sub
check_output p output =
    let lowered = lower (codes output) in
    if has_sub (codes "authentication failed") lowered
    then raise (transfer_error "AUTH FAILED — sprawdź dane uwierzytelniania")
    else raise_if (has_table p && has_sub (codes "does not exist") lowered)
        (transfer_error ("TABLE NOT FOUND: " <> no_table p.table_name))

abbrev exits_text : ExitCode → ExitCode → String
exits_text dump psql = "dump=" <> (show_code dump <> (", psql=" <> show_code psql))

-- The messages of `execute`.
abbrev pub wording : Wording
wording = record {
  starting = λ n. "Starting pg_dump|psql (attempt " <> (show n <> ")");
  retrying = λ dump psql.
      "pg_dump/psql failed ("
      <> (exits_text dump psql <> ("), retrying in " <> (show retry_delay <> "s...")));
  failed = λ dump psql.
      "TRANSFER FAILED — pg_dump/psql failed after "
      <> (show max_retries
          <> (" attempts (pg_dump exit="
              <> (show_code dump <> (", psql exit=" <> (show_code psql <> ")")))));
}

module _ (D : Drivers) (p : DbParams) where
  -- `_verify_row_counts`
  unfoldable pub verify_row_counts : Eff (Unit {0})
  verify_row_counts =
      verify_counts D p (λ table. "SELECT COUNT(*) FROM " <> D.identifier table)
        (tables_by D p "SELECT tablename FROM pg_tables WHERE schemaname='public'" [])

  -- `_run_pipe`, with the lengths of the columns
  unfoldable pub run_dump : Lengths → Eff (ExitCode × ExitCode × String)
  run_dump lengths =
      run_pipe D (relay_line D.faker p.masking_rules lengths (not (has_table p))) empty_stream
        (build_pg_dump_cmd p) (build_psql_cmd p)

  -- `execute`
  unfoldable pub execute : Eff (Unit {0})
  unfolding run_dump verify_row_counts
  execute = do
    lengths ← fetch_column_lengths D p
    with_retries wording (run_dump lengths) (check_output p)
        (when p.verify_row_count verify_row_counts)
