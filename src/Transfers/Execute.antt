-- ===== src/Transfers/Execute.antt =====
-- The task `transfers.execute` (services/worker/tasks.py, `execute_transfer`, `_cleanup_source_file`).
-- What the handler does comes as its result and its events; the times of the clock are arguments.
use tmask_tt.Base.{
  ℕ, String, ◌<>◌, Bool, true, false, ◌&&◌, ◌||◌, not, Option, none, some, List, [], ◌∷◌, ◌==◌,
  is_some, truthy, if◌then◌else◌,
}
use tmask_tt.Base.Text.{Text, codes}
use tmask_tt.Worker.{
  Event, logged, progressed, started, slept, wrote, opened, closed, logged_text, relayed,
  wrote_line, Level, error, Exn, transfer_error, message, Result, ok, err,
}
use tmask_tt.Transfers.{Job, mark_running, mark_done, mark_failed, update_progress}

-- The tasks that follow a job: `send_notification`, `send_webhook`, `send_telegram`.
pub data FollowUp : Type 0 where
  notification webhook telegram : FollowUp

-- What the task writes: the row of the job, the rows of its log (the last one first), the tasks
-- queued (the last one first), the last percentage that it stored, and the source files removed.
pub record Run : Type 0 where
  pub job : Job
  pub logs : List (Level × Text)
  pub queued : List FollowUp
  pub last_percent : Option ℕ
  pub unlinked : List String

-- The broker may refuse a task: `delay` raises then. The answer may depend on what was queued.
pub record Broker : Type 0 where
  pub delay : List FollowUp → FollowUp → Result (Unit {0})

abbrev same_percent : ℕ → Option ℕ → Bool
same_percent percent none = false
same_percent percent (some last) = percent == last

-- `log_callback` and `progress_callback`: a percentage is stored when it differs from the last one.
unfoldable pub on_event : Event → Run → Run
unfolding update_progress
on_event (logged level text) r = record r { logs = (level, codes text) ∷ r.logs }
on_event (progressed percent) r =
    if same_percent percent r.last_percent
    then r
    else record r { last_percent = some percent; job = update_progress percent r.job }
on_event (started cmd) r = r
on_event (slept seconds) r = r
on_event (wrote path text) r = r
on_event (opened host) r = r
on_event closed r = r
on_event (logged_text level text) r = record r { logs = (level, text) ∷ r.logs }
on_event (relayed line) r = r
on_event (wrote_line path line) r = r

-- The callbacks of a run, from its first event to its last.
unfoldable pub on_events : List Event → Run → Run
unfolding on_event
on_events [] r = r
on_events (e ∷ es) r = on_events es (on_event e r)

-- `path.resolve().is_relative_to(TRANSFERS_DIR.resolve())`, `os.unlink(path)`: what the file system
-- says of a path, or an `OSError`.
pub record Disk : Type 0 where
  pub is_inside : String → Result Bool
  pub unlink : String → Result (Unit {0})

abbrev unlinks : Result (Unit {0}) → Bool
unlinks (ok done) = true
unlinks (err e) = false

abbrev may_unlink : Result Bool → Bool
may_unlink (ok inside) = inside
may_unlink (err e) = false

-- `_cleanup_source_file`: an `OSError` is only logged.
unfoldable pub cleanup_source_file : Disk → Job → List String → List String
cleanup_source_file D j unlinked =
    if not (is_some j.connection) || not (truthy j.source_path)
    then unlinked
    else if may_unlink (D.is_inside j.source_path) && unlinks (D.unlink j.source_path)
    then j.source_path ∷ unlinked
    else unlinked

-- The three calls of `delay` in a row: the first that raises ends them.
unfoldable pub delay_all : Broker → List FollowUp → Run → Result (Unit {0}) × Run
delay_all B [] r = (ok tt, r)
delay_all B (t ∷ ts) r = elim (B.delay r.queued t) [
  | ok sent ↦ delay_all B ts (record r { queued = t ∷ r.queued })
  | err e ↦ (err e, r)
]

abbrev follow_ups : List FollowUp
follow_ups = notification ∷ webhook ∷ telegram ∷ []

abbrev log_error : String → Run → Run
log_error text r = record r { logs = (error, codes text) ∷ r.logs }

-- The body of an `except` clause: the job is marked, the tasks are queued and the message is logged.
unfoldable pub fail_with : Broker → ℕ → String → Run → Result (Unit {0}) × Run
unfolding mark_failed delay_all
fail_with B now text r =
    let (sent, r') = delay_all B follow_ups (record r { job = mark_failed text now r.job }) in
    elim sent [ ok _ ↦ (ok tt, log_error text r') | err e ↦ (err e, r') ]

-- The two `except` clauses: an error of the handlers ends the task, any other is raised again.
unfoldable pub on_error : Broker → ℕ → Exn → Run → Result (Unit {0}) × Run
unfolding fail_with
on_error B now (transfer_error m) r = fail_with B now m r
on_error B now e r =
    let (sent, r') = fail_with B now ("UNEXPECTED ERROR — " <> message e) r in
    (elim sent [ ok _ ↦ err e | err e' ↦ err e' ], r')

-- The `try` block behind the handler.
unfoldable pub finish : Broker → Disk → ℕ → Run → Result (Unit {0}) × Run
unfolding mark_done cleanup_source_file delay_all
finish B D now r =
    let r' = record r {
      job = mark_done now r.job;
      unlinked = cleanup_source_file D r.job r.unlinked;
    } in
    delay_all B follow_ups r'

-- `execute_transfer` behind `_resolve_job`: the handler's result with its events, first to last.
unfoldable pub execute_transfer :
    Broker → Disk → String → ℕ → ℕ → Result (Unit {0}) × List Event → Job → Result (Unit {0}) × Run
unfolding mark_running
execute_transfer B D task now later (result, events) j =
    let r0 : Run = record {
      job = mark_running task now j;
      logs = [];
      queued = [];
      last_percent = none;
      unlinked = [];
    } in
    let r1 = on_events events r0 in
    elim result [
      | err e ↦ on_error B later e r1
      | ok _ ↦
          let (sent, r2) = finish B D later r1 in
          elim sent [ ok _ ↦ (ok tt, r2) | err e ↦ on_error B later e r2 ]
    ]
