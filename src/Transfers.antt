-- ===== src/Transfers.antt =====
-- A transfer job (services/web/apps/transfers/models.py) and what the views and the tasks write to
-- its row. A save with `update_fields` writes those fields alone, so an operation is a function of
-- the row.
pub mod Paths
pub mod Execute
pub mod Outcome
pub mod Lifecycle
pub mod Runner
pub mod Upkeep
pub mod Placed
mod Tests
use tmask_tt.Base.{
  ℕ, ◌-◌, ◌≡◌, String, Bool, true, false, ◌&&◌, ◌||◌, not, Option, none, some, List, [], ◌∷◌, ◌++◌,
  ltb, leb, ◌==◌, is_some, truthy, if◌then◌else◌,
}

-- STATUS_PENDING to STATUS_CANCELLED
pub data Status : Type 0 where
  pending running done failed cancelled : Status

pub record Job : Type 0 where
  pub pk : ℕ
  pub owner : ℕ
  pub connection : Option ℕ
  pub flow : Option ℕ
  pub source_path : String
  pub destination_path : String
  pub status : Status
  pub celery_task_id : String
  pub created_at : ℕ
  pub started_at : Option ℕ
  pub finished_at : Option ℕ
  pub error_message : String
  pub cancelled_by : Option ℕ
  pub progress_percent : Option ℕ

-- `TransferJob.clean`: the messages of its `ValidationError`, and `none` of a valid job.
unfoldable pub clean : Job → Option String
clean j =
    if is_some j.connection && is_some j.flow
    then some "Set connection or flow, not both."
    else if not (is_some j.connection) && not (is_some j.flow)
    then some "Set either connection or flow."
    else none

unfoldable pub mark_running : String → ℕ → Job → Job
mark_running task now j = record j {
  status = running;
  celery_task_id = task;
  started_at = some now;
  progress_percent = none;
}

unfoldable pub mark_done : ℕ → Job → Job
mark_done now j = record j { status = done; finished_at = some now; progress_percent = some 100 }

unfoldable pub update_progress : ℕ → Job → Job
update_progress percent j = record j { progress_percent = some percent }

unfoldable pub mark_failed : String → ℕ → Job → Job
mark_failed message now j = record j {
  status = failed;
  error_message = message;
  finished_at = some now;
}

unfoldable pub mark_cancelled : ℕ → ℕ → Job → Job
mark_cancelled by now j = record j {
  status = cancelled;
  cancelled_by = some by;
  finished_at = some now;
}

-- `status in (STATUS_PENDING, STATUS_RUNNING)`
abbrev pub is_active : Status → Bool
is_active pending = true
is_active running = true
is_active done = false
is_active failed = false
is_active cancelled = false

abbrev pub is_running : Status → Bool
is_running running = true
is_running pending = false
is_running done = false
is_running failed = false
is_running cancelled = false

-- `transfer_stop` (services/web/apps/transfers/views.py): the row, the task that is revoked, and
-- whether the job was active.
pub record Stopped : Type 0 where
  pub job : Job
  pub revoked : Option String
  pub accepted : Bool

unfoldable pub transfer_stop : ℕ → ℕ → Job → Stopped
unfolding mark_cancelled
transfer_stop user now j =
    if not (is_active j.status)
    then record { job = j; revoked = none; accepted = false }
    else record {
      job = mark_cancelled user now j;
      revoked = if truthy j.celery_task_id then some j.celery_task_id else none;
      accepted = true;
    }

-- `transfer_delete`: `none` where the row is gone.
unfoldable pub transfer_delete : Job → Option Job
transfer_delete j = if is_active j.status then some j else none

-- `timedelta(hours=1)`
abbrev pub hour : ℕ
hour = 3_600_000_000

-- `status='running', started_at__lt=cutoff`
abbrev pub is_orphan : ℕ → Job → Bool
is_orphan now j =
    is_running j.status && elim j.started_at [ none ↦ false | some t ↦ ltb t (now - hour) ]

abbrev pub interrupted : String
interrupted = "TASK INTERRUPTED — worker restarted"

-- What the `update` of `cleanup_orphan_jobs` (services/worker/tasks.py) makes of a row: it writes the
-- two fields alone.
unfoldable pub mend_orphan : ℕ → Job → Job
mend_orphan now j =
    if is_orphan now j then record j { status = failed; error_message = interrupted } else j

unfoldable pub cleanup_orphan_jobs : ℕ → List Job → List Job
unfolding mend_orphan
cleanup_orphan_jobs now [] = []
cleanup_orphan_jobs now (j ∷ jobs) = mend_orphan now j ∷ cleanup_orphan_jobs now jobs
