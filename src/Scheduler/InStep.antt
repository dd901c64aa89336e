-- ===== src/Scheduler/InStep.antt =====
-- The periodic tasks keep in step with the schedules (services/web/apps/scheduler/views.py).
use mathlib.Core.Option
use tmask_tt.Base.{ℕ, ◌≡◌, String, true, Option, none, some, List, [], ◌∷◌, str_eq, if◌then◌else◌}
use tmask_tt.Base.Text.{Text}
use tmask_tt.Accounts.{User}
use tmask_tt.Transfers.Upkeep.{Schedule}
use tmask_tt.Pages.{Method, find_row}
use tmask_tt.Scheduler.{
  PeriodicTask, Schedules, ScheduleForm, FormRequest, Printer, words, crontab_of, is_cron,
  task_name, periodic_task, key, schedule_create, schedule_edit, schedule_toggle, schedule_delete,
}

-- The task of a name.
unfoldable pub find_named : String → List PeriodicTask → Option PeriodicTask
find_named name [] = none
find_named name (t ∷ ts) =
    let rest = find_named name ts in if str_eq t.name name then some t else rest

-- The task that a schedule should have: none if its expression has not five parts.
abbrev pub expected : Schedule → Option PeriodicTask
expected s = Option.map (periodic_task s) (crontab_of (words s.cron_expr))

abbrev of_schedule : Option Schedule → Option PeriodicTask
of_schedule none = none
of_schedule (some s) = expected s

-- Each key has the periodic task of its schedule: the expression and the switch are those of the row, and
-- where there is no row there is no task. Every expression has five parts.
pub record AreInStep (s : Schedules) : Type 0 where
  pub same : (k : ℕ) → find_named (task_name k) s.tasks ≡ of_schedule (find_row key k s.schedules)
  pub crons :
      (k : ℕ) (r : Schedule) → find_row key k s.schedules ≡ some r → is_cron r.cron_expr ≡ true

-- A request to one of the four views, by anyone.
pub data Step (W : Printer) : Schedules → Schedules → Type 0 where
  create :
      (actor : Option User) (new : ℕ) (request : FormRequest ScheduleForm) (s : Schedules)
      → Step W s (schedule_create W actor new request s).1
  edit :
      (actor : Option User) (pk : ℕ) (request : FormRequest ScheduleForm) (s : Schedules)
      → Step W s (schedule_edit W actor pk request s).1
  toggle :
      (actor : Option User) (method : Method) (pk : ℕ) (s : Schedules)
      → Step W s (schedule_toggle W actor method pk s).1
  delete :
      (actor : Option User) (method : Method) (pk : ℕ) (s : Schedules)
      → Step W s (schedule_delete W actor method pk s).1

pub data Steps (W : Printer) (start : Schedules) : Schedules → Type 0 where
  here : Steps W start start
  next : {a b : Schedules} → Steps W start a → Step W a b → Steps W start b
