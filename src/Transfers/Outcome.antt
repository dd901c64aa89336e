-- ===== src/Transfers/Outcome.antt =====
-- How `transfers.execute` ends (services/worker/tasks.py, `execute_transfer`).
use tmask_tt.Base.{
  ℕ, ◌≡◌, refl, ap, String, ◌<>◌, Bool, true, false, Option, none, some, List, [], ◌∷◌, arith, inl,
  inr,
}
use tmask_tt.Base.Text.{codes}
use tmask_tt.Worker.{
  Event, logged, progressed, started, slept, wrote, opened, closed, logged_text, relayed,
  wrote_line, error, Exn, transfer_error, message, Result, ok, err, Result-cases,
}
use tmask_tt.Transfers.{Job, Status, done, failed, mark_running, mark_done, mark_failed}
use tmask_tt.Transfers.Execute.{
  Run, Broker, Disk, FollowUp, notification, webhook, telegram, on_event, on_events,
  cleanup_source_file, delay_all, fail_with, on_error, finish, execute_transfer,
}

-- A broker that takes every task.
abbrev pub TakesAll : Broker → Type 0
TakesAll B = (queued : List FollowUp) (t : FollowUp) → B.delay queued t ≡ ok tt

-- The three tasks that follow a job, the last one first.
abbrev pub all_queued : List FollowUp
all_queued = telegram ∷ webhook ∷ notification ∷ []

-- What the callbacks leave alone.
record SameRun (r r' : Run) : Type 0 where
  status : r'.job.status ≡ r.job.status
  error_message : r'.job.error_message ≡ r.job.error_message
  queued : r'.queued ≡ r.queued
  source : r'.job.source_path ≡ r.job.source_path
  unlinked : r'.unlinked ≡ r.unlinked

on_event-SameRun : (e : Event) (r : Run) → SameRun r (on_event e r)
unfolding on_event
on_event-SameRun e r = ground arith

on_events-SameRun : (es : List Event) (r : Run) → SameRun r (on_events es r)
unfolding on_events
on_events-SameRun [] r = ground arith
on_events-SameRun (e ∷ es) r =
    ground (arith, on_event-SameRun e r, on_events-SameRun es (on_event e r))

-- The percentage of the last progress event, or the one before.
abbrev pub last_progress : Option ℕ → List Event → Option ℕ
last_progress p [] = p
last_progress p (progressed percent ∷ es) = last_progress (some percent) es
last_progress p (logged level text ∷ es) = last_progress p es
last_progress p (started cmd ∷ es) = last_progress p es
last_progress p (slept seconds ∷ es) = last_progress p es
last_progress p (wrote path text ∷ es) = last_progress p es
last_progress p (opened host ∷ es) = last_progress p es
last_progress p (closed ∷ es) = last_progress p es
last_progress p (logged_text level text ∷ es) = last_progress p es
last_progress p (relayed line ∷ es) = last_progress p es
last_progress p (wrote_line path line ∷ es) = last_progress p es

-- Skipping a percentage that was the last one stored loses nothing: after every callback the row
-- holds the last percentage reported.
pub on_events_progress :
    (es : List Event) (r : Run)
    → r.last_percent ≡ r.job.progress_percent
    → (on_events es r).job.progress_percent ≡ last_progress r.job.progress_percent es
unfolding on_events on_event
on_events_progress [] r h = refl
on_events_progress (logged level text ∷ es) r h = on_events_progress es _ h
on_events_progress (started cmd ∷ es) r h = on_events_progress es r h
on_events_progress (slept seconds ∷ es) r h = on_events_progress es r h
on_events_progress (wrote path text ∷ es) r h = on_events_progress es r h
on_events_progress (opened host ∷ es) r h = on_events_progress es r h
on_events_progress (closed ∷ es) r h = on_events_progress es r h
on_events_progress (logged_text level text ∷ es) r h =
    on_events_progress es (record r { logs = (level, text) ∷ r.logs }) h
on_events_progress (relayed line ∷ es) r h = on_events_progress es r h
on_events_progress (wrote_line path line ∷ es) r h = on_events_progress es r h
on_events_progress (progressed percent ∷ es) r h =
    ground (arith, on_events_progress es (on_event (progressed percent) r))

abbrev start : String → ℕ → Job → Run
start task now j = record {
  job = mark_running task now j;
  logs = [];
  queued = [];
  last_percent = none;
  unlinked = [];
}

-- A run that the handler completes, with a broker that takes every task: the job is done at 100
-- percent, the three tasks are queued once each, and nothing is raised.
pub execute_transfer_done :
    (B : Broker) (D : Disk) (task : String) (now later : ℕ) (events : List Event) (j : Job)
    → TakesAll B
    → let (result, r) = execute_transfer B D task now later (ok tt, events) j in
      (result ≡ ok tt)
      × (r.job.status ≡ done)
      × (r.job.progress_percent ≡ some 100)
      × (r.job.finished_at ≡ some later)
      × (r.queued ≡ all_queued)
unfolding execute_transfer mark_done finish delay_all
execute_transfer_done B D task now later events j takes =
    let same = on_events-SameRun events (start task now j) in
    ground (
      arith,
      same,
      takes [] notification,
      takes (notification ∷ []) webhook,
      takes (webhook ∷ notification ∷ []) telegram,
    )

-- What an exception of the handler makes of the job: the message it is marked with, and what the task
-- raises in its turn.
abbrev pub failure_text : Exn → String
failure_text (transfer_error m) = m
failure_text e = "UNEXPECTED ERROR — " <> message e

abbrev pub raised : Exn → Result (Unit {0})
raised (transfer_error m) = ok tt
raised e = err e

fail_with-TakesAll :
    (B : Broker) (now : ℕ) (text : String) (r : Run)
    → TakesAll B
    → r.queued ≡ []
    → let (result, r') = fail_with B now text r in
      (result ≡ ok tt)
      × (r'.job ≡ mark_failed text now r.job)
      × (r'.queued ≡ all_queued)
      × (r'.logs ≡ (error, codes text) ∷ r.logs)
unfolding fail_with
fail_with-TakesAll B now text r takes fresh = ground (
  arith,
  takes [] notification,
  takes (notification ∷ []) webhook,
  takes (webhook ∷ notification ∷ []) telegram,
)

on_error-TakesAll :
    (B : Broker) (now : ℕ) (e : Exn) (r : Run)
    → TakesAll B
    → r.queued ≡ []
    → let (result, r') = on_error B now e r in
      (result ≡ raised e)
      × (r'.job ≡ mark_failed (failure_text e) now r.job)
      × (r'.queued ≡ all_queued)
      × (r'.logs ≡ (error, codes (failure_text e)) ∷ r.logs)
unfolding on_error
on_error-TakesAll B now (transfer_error m) r takes fresh = fail_with-TakesAll B now m r takes fresh
on_error-TakesAll B now e r takes fresh =
    ground (arith, fail_with-TakesAll B now (failure_text e) r takes fresh)

-- A run whose handler raises, with a broker that takes every task: the job is failed with the
-- message, which is also the last row of its log, the three tasks are queued once each, and the
-- task raises again exactly what is no error of the handlers.
pub execute_transfer_failed :
    (B : Broker) (D : Disk) (task : String) (now later : ℕ) (events : List Event) (e : Exn)
    (j : Job)
    → TakesAll B
    → let (result, r) = execute_transfer B D task now later (err e, events) j in
      (result ≡ raised e)
      × (r.job.status ≡ failed)
      × (r.job.error_message ≡ failure_text e)
      × (r.queued ≡ all_queued)
      × (r.logs ≡ (error, codes (failure_text e)) ∷ (on_events events (start task now j)).logs)
unfolding execute_transfer mark_failed
execute_transfer_failed B D task now later events e j takes =
    let r = on_events events (start task now j) in
    let same = on_events-SameRun events (start task now j) in
    let (raised_same, marked, queued, logged_last) =
      on_error-TakesAll B later e r takes same.queued in
    (
      raised_same,
      ap (λ j'. j'.status) marked,
      ap (λ j'. j'.error_message) marked,
      queued,
      logged_last,
    )

abbrev pub is_terminal : Status → Bool
is_terminal done = true
is_terminal failed = true
is_terminal _ = false

delay_all-job : (B : Broker) (ts : List FollowUp) (r : Run) → (delay_all B ts r).1.job ≡ r.job
unfolding delay_all
delay_all-job B [] r = refl
delay_all-job B (t ∷ ts) r = ground (arith, delay_all-job B ts (record r { queued = t ∷ r.queued }))

fail_with-failed :
    (B : Broker) (now : ℕ) (text : String) (r : Run)
    → (fail_with B now text r).1.job.status ≡ failed
unfolding fail_with mark_failed
fail_with-failed B now text r = ground (
  arith,
  delay_all-job B (notification ∷ webhook ∷ telegram ∷ [])
      (record r { job = mark_failed text now r.job }),
)

pub on_error-failed :
    (B : Broker) (now : ℕ) (e : Exn) (r : Run) → (on_error B now e r).1.job.status ≡ failed
unfolding on_error
on_error-failed B now (transfer_error m) r = fail_with-failed B now m r
on_error-failed B now e r = fail_with-failed B now _ r

finish-done : (B : Broker) (D : Disk) (now : ℕ) (r : Run) → (finish B D now r).1.job.status ≡ done
unfolding finish mark_done
finish-done B D now r =
    ap (λ j. j.status)
      (delay_all-job B (notification ∷ webhook ∷ telegram ∷ [])
        (record r { job = mark_done now r.job; unlinked = cleanup_source_file D r.job r.unlinked }))

finish-refused :
    (B : Broker) (D : Disk) (now : ℕ) (r : Run) (e : Exn)
    → r.queued ≡ []
    → B.delay [] notification ≡ err e
    → (finish B D now r).0 ≡ err e
unfolding finish delay_all
finish-refused B D now r e fresh refused = ground arith

-- No run leaves a job running: whatever the handler, the disk and the broker do, and whatever the
-- status was before, also a cancelled one, the job is done or failed at the end.
pub execute_transfer_ends :
    (B : Broker) (D : Disk) (task : String) (now later : ℕ) (run : Result (Unit {0}) × List Event)
    (j : Job)
    → is_terminal (execute_transfer B D task now later run j).1.job.status ≡ true
unfolding execute_transfer finish
execute_transfer_ends B D task now later (err e, events) j =
    ap is_terminal (on_error-failed B later e (on_events events (start task now j)))
execute_transfer_ends B D task now later (ok u, events) j =
    let r = on_events events (start task now j) in
    elim (Result-cases (finish B D later r).0) [
      | inl (sent, h) ↦ rw (h, finish-done B D later r)
      | inr (e, h) ↦ rw (h, on_error-failed B later e (finish B D later r).1)
    ]

-- A broker that refuses the first task turns a completed transfer into a failed job: the `try` block
-- covers the queueing too.
pub execute_transfer_broker_down :
    (B : Broker) (D : Disk) (task : String) (now later : ℕ) (events : List Event) (j : Job)
    (e : Exn)
    → B.delay [] notification ≡ err e
    → (execute_transfer B D task now later (ok tt, events) j).1.job.status ≡ failed
unfolding execute_transfer finish
execute_transfer_broker_down B D task now later events j e refused =
    let r = on_events events (start task now j) in
    let same = on_events-SameRun events (start task now j) in
    rw (
      finish-refused B D later r e same.queued refused,
      on_error-failed B later e (finish B D later r).1,
    )
