-- ===== src/Scheduler.antt =====
-- The pages of schedules and the periodic tasks that follow them (services/web/apps/scheduler/views.py,
-- forms.py, models.py).
pub mod InStep
mod Tests
use tmask_tt.Base.{
  ℕ, String, ◌<>◌, Bool, true, false, not, Option, none, some, List, [], ◌∷◌, ◌==◌, str_eq, length,
  non_empty, if◌then◌else◌,
}
use tmask_tt.Base.Str.{show}
use tmask_tt.Base.Text.{Text, is_space, extend}
use tmask_tt.Accounts.{User, admin}
use tmask_tt.Transfers.Runner.{Flow}
use tmask_tt.Transfers.Upkeep.{Schedule}
use tmask_tt.Audit.{
  Value, text, flag, row, null, Instance, Change, Changes, Entry, Subject, diff_fields, log_created,
  log_updated, log_deleted, str_of,
}
use tmask_tt.Pages.{
  Method, get, post, Answer, done, failed, form_page, with_role, post_only, or_404, find_row,
  save_row, delete_row,
}

-- `s.split()`: the words between white space.
unfoldable pub split_space : Text → List Text
split_space [] = [] ∷ []
split_space (c ∷ s) = let rest = split_space s in if is_space c then [] ∷ rest else extend c rest

unfoldable pub keep_words : List Text → List Text
keep_words [] = []
keep_words (w ∷ ws) = let rest = keep_words ws in if non_empty w then w ∷ rest else rest

unfoldable pub words : Text → List Text
unfolding split_space keep_words
words s = keep_words (split_space s)

-- `CrontabSchedule`
pub record Crontab : Type 0 where
  pub minute : Text
  pub hour : Text
  pub day_of_month : Text
  pub month_of_year : Text
  pub day_of_week : Text

-- `PeriodicTask` of 'transfers.execute', with the `scheduled_id` of its arguments.
pub record PeriodicTask : Type 0 where
  pub name : String
  pub crontab : Crontab
  pub scheduled_id : ℕ
  pub enabled : Bool

-- The five parts of an expression; the assignment to five names raises `ValueError` on any other number.
unfoldable pub crontab_of : List Text → Option Crontab
crontab_of (m ∷ h ∷ d ∷ mo ∷ w ∷ []) =
    some (record { minute = m; hour = h; day_of_month = d; month_of_year = mo; day_of_week = w })
crontab_of _ = none

unfoldable pub task_name : ℕ → String
task_name pk = "scheduled_transfer_" <> show pk

-- `PeriodicTask.objects.update_or_create(name=…, defaults=…)`
unfoldable pub update_or_create : PeriodicTask → List PeriodicTask → List PeriodicTask
update_or_create new [] = new ∷ []
update_or_create new (t ∷ ts) =
    let rest = update_or_create new ts in if str_eq t.name new.name then new ∷ ts else t ∷ rest

-- `PeriodicTask.objects.filter(name=…).delete()`
unfoldable pub delete_named : String → List PeriodicTask → List PeriodicTask
delete_named name [] = []
delete_named name (t ∷ ts) =
    let rest = delete_named name ts in if str_eq t.name name then rest else t ∷ rest

abbrev pub periodic_task : Schedule → Crontab → PeriodicTask
periodic_task s c = record {
  name = task_name s.pk;
  crontab = c;
  scheduled_id = s.pk;
  enabled = s.enabled;
}

-- `_sync_celery_beat`: none where it raises `ValueError`.
unfoldable pub sync_celery_beat : Schedule → List PeriodicTask → Option (List PeriodicTask)
unfolding crontab_of words update_or_create
sync_celery_beat s tasks = elim (crontab_of (words s.cron_expr)) [
  | none ↦ none
  | some c ↦ some (update_or_create (periodic_task s c) tasks)
]

-- `_delete_celery_beat`
unfoldable pub delete_celery_beat : Schedule → List PeriodicTask → List PeriodicTask
unfolding delete_named
delete_celery_beat s tasks = delete_named (task_name s.pk) tasks

-- The rows that the views read and write, and the texts of flows that the log shows.
pub record Schedules : Type 0 where
  pub schedules : List Schedule
  pub tasks : List PeriodicTask
  pub log : List Entry

-- `ScheduledTransferForm`, where Django's own checks of the fields pass: a flow is chosen.
pub record ScheduleForm : Type 0 where
  pub flow : Flow
  pub cron_expr : Text
  pub enabled : Bool

-- `clean_cron_expr`
unfoldable pub is_cron : Text → Bool
unfolding words
is_cron expr = length (words expr) == 5

-- A request with a form: a `GET`, a post that Django refuses, or one with the fields.
pub data FormRequest (A : Type 0) : Type 0 where
  shown : FormRequest A
  invalid : FormRequest A
  filled : A → FormRequest A

-- How the log shows a flow, and an expression as a native text.
pub record Printer : Type 0 where
  pub flow_text : Flow → String
  pub text_of : Text → String

abbrev flow_value : Printer → Option Flow → Value
flow_value W none = null
flow_value W (some f) = row f.pk (W.flow_text f)

-- The values of SCHEDULE_TRACKED_FIELDS.
abbrev pub schedule_values : Printer → Schedule → Instance
schedule_values W s field =
    if str_eq field "flow"
    then flow_value W s.flow
    else if str_eq field "cron_expr"
    then text (W.text_of s.cron_expr)
    else if str_eq field "enabled"
    then flag s.enabled
    else null

abbrev tracked_fields : List String
tracked_fields = "flow" ∷ "cron_expr" ∷ "enabled" ∷ []

-- `str(schedule)`, with the name of its flow.
abbrev subject : Printer → Schedule → Subject
subject W s = record {
  model = "ScheduledTransfer";
  pk = s.pk;
  repr =
      elim s.flow [ none ↦ "<no flow>" | some f ↦ W.flow_text f ]
      <> (": " <> W.text_of s.cron_expr);
}

-- What a view answers once it has called `_sync_celery_beat`; an error leaves the tasks and the log.
abbrev pub after_sync : Schedules → Option (List PeriodicTask) → List Entry → Answer × Schedules
after_sync s none log = (failed, s)
after_sync s (some tasks) log = (done, record s { tasks = tasks; log = log })

abbrev pub key : Schedule → ℕ
key s = s.pk

module _ (W : Printer) where
  -- A valid form of `schedule_create`; the database gives the key.
  unfoldable pub create_schedule : ℕ → User → ScheduleForm → Schedules → Answer × Schedules
  unfolding sync_celery_beat log_created
  create_schedule new u f s =
      let sched : Schedule = record {
        pk = new;
        owner = u.pk;
        flow = some f.flow;
        cron_expr = f.cron_expr;
        enabled = f.enabled;
        last_run = none;
      } in
      after_sync (record s { schedules = sched ∷ s.schedules }) (sync_celery_beat sched s.tasks)
        (log_created u.pk (subject W sched) s.log)

  -- A valid form of `schedule_edit`.
  unfoldable pub edit_schedule : User → ScheduleForm → Schedule → Schedules → Answer × Schedules
  unfolding sync_celery_beat log_updated diff_fields save_row
  edit_schedule u f old s =
      let sched = record old { flow = some f.flow; cron_expr = f.cron_expr; enabled = f.enabled } in
      after_sync (record s { schedules = save_row key sched s.schedules })
        (sync_celery_beat sched s.tasks)
        (log_updated u.pk (subject W sched)
          (diff_fields (schedule_values W old) (schedule_values W sched) tracked_fields []) s.log)

  -- The body of `schedule_toggle`.
  unfoldable pub toggle_schedule : User → Schedule → Schedules → Answer × Schedules
  unfolding sync_celery_beat log_updated save_row str_of
  toggle_schedule u old s =
      let sched = record old { enabled = not old.enabled } in
      let change : Change = record {
        before = str_of (flag old.enabled);
        after = str_of (flag sched.enabled);
      } in
      after_sync (record s { schedules = save_row key sched s.schedules })
        (sync_celery_beat sched s.tasks)
        (log_updated u.pk (subject W sched) (("enabled", change) ∷ []) s.log)

  -- The body of `schedule_delete`.
  unfoldable pub delete_schedule : User → Schedule → Schedules → Answer × Schedules
  unfolding delete_celery_beat log_deleted delete_row
  delete_schedule u sched s = (
    done,
    record {
      schedules = delete_row key sched.pk s.schedules;
      tasks = delete_celery_beat sched s.tasks;
      log = log_deleted u.pk (subject W sched) s.log;
    },
  )

  -- `form.is_valid()` with the view behind it.
  abbrev pub with_schedule_form :
      FormRequest ScheduleForm
      → Schedules
      → (ScheduleForm → Answer × Schedules)
      → Answer × Schedules
  with_schedule_form shown s view = (form_page, s)
  with_schedule_form invalid s view = (form_page, s)
  with_schedule_form (filled f) s view = if is_cron f.cron_expr then view f else (form_page, s)

  unfoldable pub schedule_create :
      Option User → ℕ → FormRequest ScheduleForm → Schedules → Answer × Schedules
  unfolding with_role create_schedule is_cron
  schedule_create actor new request s =
      with_role admin actor s (λ u. with_schedule_form request s (λ f. create_schedule new u f s))

  unfoldable pub schedule_edit :
      Option User → ℕ → FormRequest ScheduleForm → Schedules → Answer × Schedules
  unfolding with_role edit_schedule is_cron find_row
  schedule_edit actor pk request s = with_role admin actor s (λ u.
      or_404 (find_row key pk s.schedules) s
        (λ old. with_schedule_form request s (λ f. edit_schedule u f old s)))

  unfoldable pub schedule_toggle : Option User → Method → ℕ → Schedules → Answer × Schedules
  unfolding with_role toggle_schedule find_row
  schedule_toggle actor method pk s = with_role admin actor s (λ u.
      post_only method s (or_404 (find_row key pk s.schedules) s (λ old. toggle_schedule u old s)))

  unfoldable pub schedule_delete : Option User → Method → ℕ → Schedules → Answer × Schedules
  unfolding with_role delete_schedule find_row
  schedule_delete actor method pk s = with_role admin actor s (λ u.
      post_only method s (or_404 (find_row key pk s.schedules) s (λ old. delete_schedule u old s)))
