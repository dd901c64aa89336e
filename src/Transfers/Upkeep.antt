-- ===== src/Transfers/Upkeep.antt =====
-- Jobs made from schedules and the removal of old files (services/worker/tasks.py,
-- `_create_job_from_schedule`, `_resolve_job`, `cleanup_old_transfers`).
use tmask_tt.Base.{
  ℕ, ◌+◌, ◌*◌, String, ◌<>◌, Bool, false, ◌&&◌, ◌||◌, not, Option, none, some, List, [], ◌∷◌, ltb,
  ◌==◌, truthy, if◌then◌else◌,
}
use tmask_tt.Base.Str.{ends_with_char}
use tmask_tt.Base.Text.{Text}
use tmask_tt.Worker.{Result, ok, err, other_error}
use tmask_tt.Transfers.{Job, pending}
use tmask_tt.Transfers.Runner.{Flow}

-- What `cleanup_old_transfers` asks of the file system, as it is after these removals.
pub record Store : Type 0 where
  pub is_dir : Bool
  pub list_dir : List String
  pub is_file : List String → String → Bool
  pub mtime : List String → String → Result ℕ
  pub unlink : List String → String → Result (Unit {0})

-- `os.path.join(directory, name)` of a name that is no path.
unfoldable pub join_path : String → String → String
join_path directory name =
    if not (truthy directory) || ends_with_char b'/' directory
    then directory <> name
    else directory <> ("/" <> name)

-- 86400 seconds.
abbrev pub day : ℕ
day = 86_400_000_000

abbrev is_old : ℕ → ℕ → Result ℕ → Bool
is_old now days (ok t) = ltb (t + days * day) now
is_old now days (err e) = false

abbrev after_unlink : String → List String → Result (Unit {0}) → List String
after_unlink path removed (ok done) = path ∷ removed
after_unlink path removed (err e) = removed

-- The body of the loop: an `OSError` is only logged.
unfoldable pub remove_if_old : Store → ℕ → ℕ → String → List String → List String
remove_if_old F now days path removed =
    if F.is_file removed path && is_old now days (F.mtime removed path)
    then after_unlink path removed (F.unlink removed path)
    else removed

unfoldable pub remove_old : Store → ℕ → ℕ → String → List String → List String → List String
unfolding remove_if_old join_path
remove_old F now days directory [] removed = removed
remove_old F now days directory (name ∷ names) removed =
    remove_old F now days directory names
      (remove_if_old F now days (join_path directory name) removed)

-- `cleanup_old_transfers`: the files removed, the last one first, for the retention in days.
unfoldable pub cleanup_old_transfers : Store → ℕ → ℕ → String → List String
unfolding remove_old
cleanup_old_transfers F now days directory =
    if F.is_dir then remove_old F now days directory F.list_dir [] else []

-- `ScheduledTransfer` (services/web/apps/scheduler/models.py)
pub record Schedule : Type 0 where
  pub pk : ℕ
  pub owner : ℕ
  pub flow : Option Flow
  pub cron_expr : Text
  pub enabled : Bool
  pub last_run : Option ℕ

-- `ScheduledTransfer.objects.get(pk=…, enabled=True)`
unfoldable pub find_schedule : ℕ → List Schedule → Option Schedule
find_schedule k [] = none
find_schedule k (s ∷ ss) =
    let rest = find_schedule k ss in if (s.pk == k) && s.enabled then some s else rest

-- `TransferJob.objects.create(owner=…, flow=…, …)`, under the key that the database gives.
unfoldable pub create_flow_job : ℕ → ℕ → ℕ → Flow → Job
create_flow_job new now owner f = record {
  pk = new;
  owner = owner;
  connection = none;
  flow = some f.pk;
  source_path = f.source_path;
  destination_path = f.dest_path;
  status = pending;
  celery_task_id = "";
  created_at = now;
  started_at = none;
  finished_at = none;
  error_message = "";
  cancelled_by = none;
  progress_percent = none;
}

-- The job of a schedule, and the schedule with its last run. The other branch reads attributes that a
-- `ScheduledTransfer` does not have.
unfoldable pub job_of_schedule : ℕ → ℕ → Schedule → Option Flow → Result (Job × Schedule)
unfolding create_flow_job
job_of_schedule new now s (some f) =
    ok (create_flow_job new now s.owner f, record s { last_run = some now })
job_of_schedule new now s none =
    err (other_error "'ScheduledTransfer' object has no attribute 'connection'")

abbrev found : Result (Job × Schedule) → Result (Option (Job × Schedule))
found (ok r) = ok (some r)
found (err e) = err e

-- `_create_job_from_schedule`
unfoldable pub create_job_from_schedule :
    ℕ → ℕ → List Schedule → ℕ → Result (Option (Job × Schedule))
unfolding find_schedule job_of_schedule
create_job_from_schedule new now schedules scheduled_id =
    elim (find_schedule scheduled_id schedules) [
      | none ↦ ok none
      | some s ↦ found (job_of_schedule new now s s.flow)
    ]

-- `TransferJob.objects.get(pk=…)`
unfoldable pub find_job : ℕ → List Job → Option Job
find_job k [] = none
find_job k (j ∷ js) = let rest = find_job k js in if j.pk == k then some j else rest

abbrev job_only : Result (Option (Job × Schedule)) → Result (Option Job)
job_only (ok none) = ok none
job_only (ok (some (j, s))) = ok (some j)
job_only (err e) = err e

-- `_resolve_job`
unfoldable pub resolve_job :
    ℕ → ℕ → List Job → List Schedule → Option ℕ → Option ℕ → Result (Option Job)
unfolding create_job_from_schedule find_job
resolve_job new now jobs schedules (some job_id) scheduled_id = ok (find_job job_id jobs)
resolve_job new now jobs schedules none (some scheduled_id) =
    job_only (create_job_from_schedule new now schedules scheduled_id)
resolve_job new now jobs schedules none none = ok none
