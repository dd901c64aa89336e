-- ===== src/Database/Mssql.antt =====
-- The handler of SQL Server (services/worker/modules/mssql/handler.py, config.py beside it).
mod Command
pub mod Schema
pub mod Cleanup
unfoldable pub use Command.*
use tmask_tt.Base.{
  ℕ, zero, suc, ◌+◌, String, ◌<>◌, Bool, true, false, ◌&&◌, not, Option, none, some, List, [], ◌∷◌,
  ◌++◌, map, ltb, ◌==◌, str_eq, truthy, non_empty, if◌then◌else◌,
}
use tmask_tt.Base.Str.{show}
use tmask_tt.Base.Text.{Text, codes, strip_right, split_on, join_with}
use tmask_tt.Masking.{Faker, Length, Rules, Profile, mask_columns, rules_for, get, joined}
use tmask_tt.Worker.{
  World, Result, ok, err, Exn, transfer_error, Eff, pure, raise, ◌>>=◌, ◌>>◌, when, finally, emit,
  ask, lift, assign, log, info, warn, started, slept, opened, closed, wrote, wrote_line,
  logged_text, remove,
}
use tmask_tt.Worker.Params.{Tools, ExitCode, is_code}
use tmask_tt.Worker.Files.{make_temp}
use tmask_tt.Database.Params.{
  DbParams, Drivers, source, dest, has_table, connect, catch_driver, close,
}
use tmask_tt.Database.Pipe.{drain, unmasked_text, max_retries, retry_delay}
use tmask_tt.Database.Counts.{verify_counts}
use tmask_tt.Database.Mssql.Schema.{
  ColumnRow, Column, TableSchema, column_of, quote_identifier, build_create_table_sql,
}

-- What the two queries of `_introspect_table` give, and the lines of a file that is read.
pub record Server : Type 0 where
  pub column_rows : World → String → Result (List ColumnRow)
  pub key_columns : World → String → Result (List String)
  pub read_lines : World → String → Result (List Text)

-- `column_lengths.get(col)`
abbrev lengths_of : List Column → List (Text × Option Length)
lengths_of [] = []
lengths_of (c ∷ cs) = (codes c.name, c.character_maximum_length) ∷ lengths_of cs

abbrev names_of : List Column → List Text
names_of [] = []
names_of (c ∷ cs) = codes c.name ∷ names_of cs

abbrev same : Text → Text
same v = v

abbrev pub remember_path : String → Eff (Unit {0})
remember_path path = assign (λ w. record w { tmp_paths = path ∷ w.tmp_paths })

-- The `finally` block of `_transfer_once`.
unfoldable pub unlink_all : List String → List String → List String
unfolding remove
unlink_all [] temps = temps
unlink_all (p ∷ ps) temps = unlink_all ps (remove p temps)

unfoldable pub remove_temps : World → World
unfolding unlink_all
remove_temps w = record w { temps = unlink_all w.tmp_paths w.temps }

module _ (T : Tools) (D : Drivers) (S : Server) (p : DbParams) where
  -- `with pyodbc.connect(...) as conn: with conn.cursor() as cur: ...`. The block ends a transaction
  -- and leaves the connection open.
  abbrev with_source : {A : Type 0} → Eff A → Eff A
  with_source m = do connect D p source; m

  abbrev pub query_names : Eff (List String)
  query_names = with_source (
      ask (λ w.
        D.names w
          "SELECT TABLE_NAME FROM INFORMATION_SCHEMA.TABLES WHERE TABLE_TYPE = 'BASE TABLE' ORDER BY TABLE_NAME"
          []))

  abbrev pub table_names_of : Option String → Eff (List String)
  table_names_of none = query_names
  table_names_of (some t) = if truthy t then pure (t ∷ []) else query_names

  -- `_source_table_names`
  unfoldable pub source_table_names : Eff (List String)
  source_table_names = table_names_of p.table_name

  -- `_introspect_table`
  unfoldable pub introspect_table : String → Eff TableSchema
  unfolding column_of
  introspect_table table_name = with_source (do
    rows ← ask (λ w. S.column_rows w table_name)
    keys ← ask (λ w. S.key_columns w table_name)
    pure (record { columns = map column_of rows; primary_key = keys }))

  -- `_rules_for`
  unfoldable pub rules_of : String → Eff Rules
  unfolding rules_for unmasked_text
  rules_of table_name =
      let rules = rules_for p.masking_rules (codes table_name) in
      do
        when (not (non_empty rules) && not (has_table p))
            (emit (logged_text warn (unmasked_text (codes table_name))))
        pure rules

  -- The loop of `_mask_dat_file` over the lines; values are drawn from the n-th on.
  unfoldable pub mask_lines : Rules → List Column → String → ℕ → List Text → Eff (Unit {0})
  unfolding mask_columns split_on strip_right join_with get
  mask_lines rules columns path n [] = pure tt
  mask_lines rules columns path n (line ∷ lines) = do
    (values, n') ← lift (
        mask_columns D.faker same rules (λ c. joined (get c (lengths_of columns))) n
          (names_of columns) (split_on b'\t' (strip_right (λ c. c == b'\n') line)))
    emit (wrote_line path (join_with b'\t' values ++ (b'\n' ∷ [])))
    mask_lines rules columns path n' lines

  -- `_mask_dat_file`
  unfoldable pub mask_dat_file : String → String → TableSchema → Eff (Unit {0})
  unfolding mask_lines rules_for
  mask_dat_file path table_name schema =
      let rules = rules_for p.masking_rules (codes table_name) in
      when (non_empty rules) (do
        lines ← ask (λ w. S.read_lines w path)
        emit (wrote path "")
        mask_lines rules schema.columns path 0 lines)

  -- `_run_step`
  unfoldable pub run_step : List String → Eff ExitCode
  unfolding drain
  run_step cmd = do
    emit (started cmd)
    done ← ask (λ w. T.run w cmd)
    _ ← drain done.lines
    pure done.code

  -- `tempfile.mkstemp`, `os.close` and `tmp_paths.append`
  unfoldable pub hold_temp : String → Eff String
  unfolding make_temp
  hold_temp suffix = do path ← make_temp T suffix; remember_path path; pure path

  -- The statements of the tables, written to the file.
  unfoldable pub write_tables : String → List String → Eff (Unit {0})
  unfolding introspect_table build_create_table_sql
  write_tables ddl_path [] = pure tt
  write_tables ddl_path (table_name ∷ names) = do
    schema ← introspect_table table_name
    emit (wrote ddl_path (build_create_table_sql table_name schema))
    write_tables ddl_path names

  -- Behind `bcp out`: the data masked, and `bcp in`; whether that ended well.
  unfoldable pub load_table : String → String → Bool → Eff Bool
  unfolding mask_dat_file introspect_table run_step
  load_table table_name data_path masks = do
    when masks (introspect_table table_name >>= mask_dat_file data_path table_name)
    code ← run_step (build_bcp_in_cmd p table_name data_path (not masks))
    pure (is_code 0 code)

  -- The body of the loop over the tables: whether both commands ended well.
  unfoldable pub transfer_table : String → Eff Bool
  unfolding hold_temp rules_of run_step load_table
  transfer_table table_name = do
    data_path ← hold_temp ".dat"
    rules ← rules_of table_name
    code ← run_step (build_bcp_out_cmd p table_name data_path (not (non_empty rules)))
    if is_code 0 code then load_table table_name data_path (non_empty rules) else pure false

  unfoldable pub transfer_tables : List String → Eff Bool
  unfolding transfer_table
  transfer_tables [] = pure true
  transfer_tables (table_name ∷ names) = do
    went ← transfer_table table_name
    if went then transfer_tables names else pure false

  -- The `try` block of `_transfer_once`.
  unfoldable pub transfer_steps : List String → Eff Bool
  unfolding hold_temp write_tables run_step transfer_tables
  transfer_steps names = do
    ddl_path ← hold_temp ".sql"
    write_tables ddl_path names
    code ← run_step (build_sqlcmd_cmd p ddl_path)
    if is_code 0 code then transfer_tables names else pure false

  -- `_transfer_once` behind the names of the tables
  unfoldable pub transfer_named : List String → Eff Bool
  unfolding transfer_steps remove_temps
  transfer_named names = do
    assign (λ w. record w { tmp_paths = [] })
    finally (transfer_steps names) remove_temps

  -- `_transfer_once`
  unfoldable pub transfer_once : Eff Bool
  unfolding transfer_named source_table_names
  transfer_once = source_table_names >>= transfer_named

  -- `_verify_row_counts`
  unfoldable pub verify_row_counts : Eff (Unit {0})
  unfolding quote_identifier source_table_names
  verify_row_counts =
      verify_counts D p (λ table. "SELECT COUNT(*) FROM " <> quote_identifier table)
        source_table_names

  abbrev pub wait_to_retry : ℕ → Eff (Unit {0})
  wait_to_retry attempt = when (ltb attempt max_retries) (do
    log warn ("Transfer step failed, retrying in " <> (show retry_delay <> "s..."))
    emit (slept retry_delay))

  abbrev succeed : Eff (Unit {0})
  unfolding verify_row_counts
  succeed = do log info "Transfer complete"; when p.verify_row_count verify_row_counts

  -- The loop of `execute`; `left` counts the attempts that remain.
  unfoldable pub retry_loop : ℕ → ℕ → Eff (Unit {0})
  unfolding transfer_once succeed
  retry_loop zero attempt = raise (
      transfer_error
        ("TRANSFER FAILED — mssql transfer failed after " <> (show max_retries <> " attempts")))
  retry_loop (suc left) attempt = do
    log info ("Starting MSSQL schema+data transfer (attempt " <> (show attempt <> ")"))
    went ←
        catch_driver transfer_once
          (λ m. raise (transfer_error ("SCHEMA INTROSPECTION FAILED — " <> m)))
    if went then succeed else (do wait_to_retry attempt; retry_loop left (attempt + 1))

  -- `execute`
  unfoldable pub execute : Eff (Unit {0})
  unfolding retry_loop
  execute = retry_loop max_retries 1
