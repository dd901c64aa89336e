-- ===== src/Database/Task.antt =====
-- The task `db_transfers.execute` (services/worker/tasks.py, `execute_db_transfer`) and the rows of its
-- jobs (services/web/apps/db_transfers/models.py). The times of the clock are arguments.
pub mod Rules
pub mod Outcome
use tmask_tt.Base.{
  ℕ, String, ◌<>◌, Bool, true, false, ◌&&◌, not, Option, none, some, List, [], ◌∷◌, ◌==◌, truthy,
  if◌then◌else◌,
}
use tmask_tt.Base.Text.{Text, codes, text_eq}
use tmask_tt.Masking.{Rules as MaskingRules, Profile}
use tmask_tt.Worker.{
  World, Event, logged, progressed, started, slept, wrote, opened, closed, logged_text, relayed,
  wrote_line, Level, error, Exn, transfer_error, message, Result, ok, err, Eff,
}
use tmask_tt.Worker.Params.{Tools}
use tmask_tt.Transfers.{Status, pending, running, done, failed, cancelled}
use tmask_tt.Database.Params.{DbParams, Drivers}
use tmask_tt.Database.Postgres as Postgres
use tmask_tt.Database.Mysql as Mysql
use tmask_tt.Database.Mssql as Mssql

-- The kinds of a connection, and the engines of a job.
pub data Engine : Type 0 where
  postgres mysql mssql : Engine

pub data Kind : Type 0 where
  ssh : Kind
  database : Engine → Kind

abbrev engine_eq : Engine → Engine → Bool
engine_eq postgres postgres = true
engine_eq postgres mysql = false
engine_eq postgres mssql = false
engine_eq mysql postgres = false
engine_eq mysql mysql = true
engine_eq mysql mssql = false
engine_eq mssql postgres = false
engine_eq mssql mysql = false
engine_eq mssql mssql = true

abbrev kind_eq : Kind → Kind → Bool
kind_eq ssh ssh = true
kind_eq ssh (database e) = false
kind_eq (database e) ssh = false
kind_eq (database e) (database e') = engine_eq e e'

-- What the task reads of a connection.
pub record Connection : Type 0 where
  pub pk : ℕ
  pub kind : Kind
  pub host : String
  pub port : ℕ
  pub username : String
  pub password : String
  pub db_name : String

pub record DbTransferJob : Type 0 where
  pub pk : ℕ
  pub created_at : ℕ
  pub source_connection : Connection
  pub dest_connection : Connection
  pub engine : Engine
  pub table_name : String
  pub verify_row_count : Bool
  pub status : Status
  pub celery_task_id : String
  pub started_at : Option ℕ
  pub finished_at : Option ℕ
  pub error_message : String
  pub cancelled_by : Option ℕ

-- `DbTransferJob.clean`, where both connections are set: the message of its `ValidationError`.
unfoldable pub clean : DbTransferJob → Option String
clean j =
    if j.source_connection.pk == j.dest_connection.pk
    then some "Source and destination connection cannot be the same."
    else if not (kind_eq j.source_connection.kind j.dest_connection.kind)
    then some "Source and destination must be the same database engine."
    else none

unfoldable pub mark_running : String → ℕ → DbTransferJob → DbTransferJob
mark_running task now j = record j {
  status = running;
  celery_task_id = task;
  started_at = some now;
}

unfoldable pub mark_done : ℕ → DbTransferJob → DbTransferJob
mark_done now j = record j { status = done; finished_at = some now }

unfoldable pub mark_failed : String → ℕ → DbTransferJob → DbTransferJob
mark_failed text now j = record j { status = failed; error_message = text; finished_at = some now }

unfoldable pub mark_cancelled : ℕ → ℕ → DbTransferJob → DbTransferJob
mark_cancelled by now j = record j {
  status = cancelled;
  cancelled_by = some by;
  finished_at = some now;
}

-- A row of `MaskingRule`: the table, the column and the provider.
abbrev pub RuleRow : Type 0
RuleRow = Text × Text × String

-- `d[key] = value`
unfoldable pub put : Text → String → MaskingRules → MaskingRules
put k v [] = (k, v) ∷ []
put k v ((j, u) ∷ m) = let rest = put k v m in if text_eq j k then (j, v) ∷ m else (j, u) ∷ rest

-- `result.setdefault(table, {})[column] = provider`
unfoldable pub add_rule : RuleRow → Profile → Profile
unfolding put
add_rule (table, column, provider) [] = (table, put column provider []) ∷ []
add_rule (table, column, provider) ((t, rules) ∷ rest) =
    let others = add_rule (table, column, provider) rest in
    if text_eq t table then (t, put column provider rules) ∷ rest else (t, rules) ∷ others

-- The loop of `_masking_rules_for`.
unfoldable pub masking_rules_from : Profile → List RuleRow → Profile
unfolding add_rule
masking_rules_from result [] = result
masking_rules_from result (r ∷ rows) = masking_rules_from (add_rule r result) rows

-- `_masking_rules_for`, with the rows of the source connection
unfoldable pub masking_rules_for : List RuleRow → Profile
unfolding masking_rules_from
masking_rules_for rows = masking_rules_from [] rows

-- `_build_db_transfer_params`
unfoldable pub build_db_transfer_params : List RuleRow → DbTransferJob → DbParams
unfolding masking_rules_for
build_db_transfer_params rows j = record {
  source_host = j.source_connection.host;
  source_port = j.source_connection.port;
  source_username = j.source_connection.username;
  source_password = j.source_connection.password;
  source_db_name = j.source_connection.db_name;
  dest_host = j.dest_connection.host;
  dest_port = j.dest_connection.port;
  dest_username = j.dest_connection.username;
  dest_password = j.dest_connection.password;
  dest_db_name = j.dest_connection.db_name;
  table_name = if truthy j.table_name then some j.table_name else none;
  verify_row_count = j.verify_row_count;
  masking_rules = masking_rules_for rows;
}

-- The rows of `DbTransferLog` that the callbacks write, the last one first.
abbrev pub logs_of : List Event → List (Level × Text)
logs_of [] = []
logs_of (logged level text ∷ es) = (level, codes text) ∷ logs_of es
logs_of (logged_text level text ∷ es) = (level, text) ∷ logs_of es
logs_of (progressed percent ∷ es) = logs_of es
logs_of (started cmd ∷ es) = logs_of es
logs_of (slept seconds ∷ es) = logs_of es
logs_of (wrote path text ∷ es) = logs_of es
logs_of (opened host ∷ es) = logs_of es
logs_of (closed ∷ es) = logs_of es
logs_of (relayed line ∷ es) = logs_of es
logs_of (wrote_line path line ∷ es) = logs_of es

-- What the task writes: the row of the job and the rows of its log.
pub record DbRun : Type 0 where
  pub job : DbTransferJob
  pub logs : List (Level × Text)

-- The end of the task, by how the handler ended: the result and the log.
unfoldable pub conclude :
    ℕ → DbTransferJob → List (Level × Text) → Result (Unit {0}) → Result (Unit {0}) × DbRun
unfolding mark_done mark_failed
conclude now j logs (ok _) = (ok tt, record { job = mark_done now j; logs = logs })
conclude now j logs (err (transfer_error m)) =
    (ok tt, record { job = mark_failed m now j; logs = (error, codes m) ∷ logs })
conclude now j logs (err e) =
    let text = "UNEXPECTED ERROR — " <> message e in
    (err e, record { job = mark_failed text now j; logs = (error, codes text) ∷ logs })

module _ (T : Tools) (D : Drivers) (S : Mssql.Server) where
  -- `_db_transfer_handlers()[engine]` and its `execute`
  unfoldable pub run_handler : Engine → DbParams → Eff (Unit {0})
  unfolding Postgres.execute Mysql.execute Mssql.execute
  run_handler postgres p = Postgres.execute D p
  run_handler mysql p = Mysql.execute D p
  run_handler mssql p = Mssql.execute T D S p

  -- `execute_db_transfer` on a job that is found, in a world without events.
  unfoldable pub execute_db_transfer :
      List RuleRow → String → ℕ → ℕ → DbTransferJob → World → Result (Unit {0}) × DbRun
  unfolding mark_running run_handler build_db_transfer_params conclude
  execute_db_transfer rows task now later j w =
      let (result, w') =
        run_handler j.engine (build_db_transfer_params rows j) (record w { events = [] }) in
      conclude later (mark_running task now j) (logs_of w'.events) result
