-- ===== src/Api/Lists.antt =====
-- The views that show jobs (services/web/apps/api/views.py, `job_status`, `job_list`,
-- `db_job_status`, `db_job_list`). The choices of a status are the same for both kinds of job.
use tmask_tt.Base.{
  ℕ, String, ◌<>◌, ◌||◌, not, Option, none, some, List, [], ◌∷◌, map, any, str_eq, ◌==◌, take,
  truthy, if◌then◌else◌,
}
use tmask_tt.Base.Str.{join}
use tmask_tt.Accounts.{User}
use tmask_tt.Database.Task.{Engine, postgres, mysql, mssql, DbTransferJob}
use tmask_tt.Worker.Params.{none_if_empty}
use tmask_tt.Transfers.{Job, pending, running, done, failed, cancelled}
use tmask_tt.Transfers.Upkeep.{find_job}
use tmask_tt.Webhooks.Payload.{status_text}
use tmask_tt.Api.{
  Request, Tables, Server, JobDict, Reply, refused, one_job, many_jobs, one_db_job, many_db_jobs,
  DbJobDict, not_found, list_page_size, require_api_token,
}

abbrev iso_or_none : (ℕ → String) → Option ℕ → Option String
iso_or_none isoformat none = none
iso_or_none isoformat (some t) = some (isoformat t)

-- `_serialize_transfer_job`
unfoldable pub serialize_transfer_job : (ℕ → String) → Job → JobDict
serialize_transfer_job isoformat j = record {
  job_id = j.pk;
  status = status_text j.status;
  connection_id = j.connection;
  flow_id = j.flow;
  source_path = j.source_path;
  destination_path = j.destination_path;
  created_at = isoformat j.created_at;
  started_at = iso_or_none isoformat j.started_at;
  finished_at = iso_or_none isoformat j.finished_at;
  error = none_if_empty j.error_message;
}

abbrev statuses : List String
statuses = map status_text (pending ∷ running ∷ done ∷ failed ∷ cancelled ∷ [])

-- `_parse_status_filter`: the message of the error of an unknown status.
unfoldable pub parse_status_filter : String → Option String
parse_status_filter status =
    if not (truthy status) || any (str_eq status) statuses
    then none
    else some ("Invalid status. Choices: " <> join ", " statuses)

unfoldable pub filter_status : String → List Job → List Job
filter_status status [] = []
filter_status status (j ∷ js) =
    let rest = filter_status status js in
    if not (truthy status) || str_eq (status_text j.status) status then j ∷ rest else rest

unfoldable pub job_status_as : (ℕ → String) → ℕ → User → Tables → Reply × Tables
unfolding serialize_transfer_job find_job
job_status_as isoformat job u t = elim (find_job job t.jobs) [
  | none ↦ (not_found, t)
  | some j ↦ (one_job (serialize_transfer_job isoformat j), t)
]

-- `job_status`
unfoldable pub job_status : Server → (ℕ → String) → ℕ → ℕ → Request → Tables → Reply × Tables
unfolding require_api_token job_status_as
job_status S isoformat now job r t = require_api_token S now (job_status_as isoformat job) r t

unfoldable pub job_list_as : (ℕ → String) → String → User → Tables → Reply × Tables
unfolding serialize_transfer_job filter_status parse_status_filter
job_list_as isoformat status u t = elim (parse_status_filter status) [
  | some m ↦ (refused 400 m, t)
  | none ↦ (
    many_jobs (
        map (serialize_transfer_job isoformat) (take list_page_size (filter_status status t.jobs))),
    t,
  )
]

-- `job_list`
unfoldable pub job_list : Server → (ℕ → String) → ℕ → Request → Tables → Reply × Tables
unfolding require_api_token job_list_as
job_list S isoformat now r t = require_api_token S now (job_list_as isoformat r.status) r t

abbrev engine_text : Engine → String
engine_text postgres = "postgres"
engine_text mysql = "mysql"
engine_text mssql = "mssql"

-- `_serialize_db_transfer_job`
unfoldable pub serialize_db_transfer_job : (ℕ → String) → DbTransferJob → DbJobDict
serialize_db_transfer_job isoformat j = record {
  job_id = j.pk;
  status = status_text j.status;
  engine = engine_text j.engine;
  source_connection_id = j.source_connection.pk;
  dest_connection_id = j.dest_connection.pk;
  table_name = none_if_empty j.table_name;
  created_at = isoformat j.created_at;
  started_at = iso_or_none isoformat j.started_at;
  finished_at = iso_or_none isoformat j.finished_at;
  error = none_if_empty j.error_message;
}

unfoldable pub find_db_job : ℕ → List DbTransferJob → Option DbTransferJob
find_db_job k [] = none
find_db_job k (j ∷ js) = let rest = find_db_job k js in if j.pk == k then some j else rest

unfoldable pub filter_db_status : String → List DbTransferJob → List DbTransferJob
filter_db_status status [] = []
filter_db_status status (j ∷ js) =
    let rest = filter_db_status status js in
    if not (truthy status) || str_eq (status_text j.status) status then j ∷ rest else rest

unfoldable pub db_job_status_as : (ℕ → String) → ℕ → User → Tables → Reply × Tables
unfolding serialize_db_transfer_job find_db_job
db_job_status_as isoformat job u t = elim (find_db_job job t.db_jobs) [
  | none ↦ (not_found, t)
  | some j ↦ (one_db_job (serialize_db_transfer_job isoformat j), t)
]

-- `db_job_status`
unfoldable pub db_job_status : Server → (ℕ → String) → ℕ → ℕ → Request → Tables → Reply × Tables
unfolding require_api_token db_job_status_as
db_job_status S isoformat now job r t = require_api_token S now (db_job_status_as isoformat job) r t

unfoldable pub db_job_list_as : (ℕ → String) → String → User → Tables → Reply × Tables
unfolding serialize_db_transfer_job filter_db_status parse_status_filter
db_job_list_as isoformat status u t = elim (parse_status_filter status) [
  | some m ↦ (refused 400 m, t)
  | none ↦ (
    many_db_jobs (
        map (serialize_db_transfer_job isoformat)
          (take list_page_size (filter_db_status status t.db_jobs))),
    t,
  )
]

-- `db_job_list`
unfoldable pub db_job_list : Server → (ℕ → String) → ℕ → Request → Tables → Reply × Tables
unfolding require_api_token db_job_list_as
db_job_list S isoformat now r t = require_api_token S now (db_job_list_as isoformat r.status) r t
