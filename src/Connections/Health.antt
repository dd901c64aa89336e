-- ===== src/Connections/Health.antt =====
-- The health check of a connection (services/worker/tasks.py, `health_check_one`, `health_check_all`).
use tmask_tt.Base.{
  ℕ, ◌<>◌, Bool, true, false, ◌&&◌, ◌||◌, not, Option, none, some, List, [], ◌∷◌, map,
  if◌then◌else◌,
}
use tmask_tt.Worker.{Result, ok, err, message}
use tmask_tt.Database.Task.{Kind, ssh, database, postgres, mysql, mssql}
use tmask_tt.Connections.{Connection, HealthStatus, unknown, healthy, unhealthy}
use tmask_tt.Connections.Testers.{
  Probe, TestResult, test_postgres, test_mysql, test_mssql, test_ssh,
}

-- The test that fits the kind of the connection.
unfoldable pub test_by_kind : Probe → ℕ → Kind → Connection → Result TestResult
unfolding test_postgres test_mysql test_mssql test_ssh
test_by_kind P now (database postgres) c = test_postgres P now c
test_by_kind P now (database mysql) c = test_mysql P now c
test_by_kind P now (database mssql) c = test_mssql P now c
test_by_kind P now ssh c = test_ssh P now c

-- `except Exception as exc`
abbrev pub result_of : Result TestResult → TestResult
result_of (ok r) = r
result_of (err e) = record { success = false; message = "UNEXPECTED ERROR — " <> message e }

abbrev pub is_unhealthy : HealthStatus → Bool
is_unhealthy unhealthy = true
is_unhealthy healthy = false
is_unhealthy unknown = false

-- The save of the three fields, and the status that a `send_health_notification` is asked for with, if it
-- is: what follows the test.
unfoldable pub record_health : ℕ → TestResult → Connection → Connection × Option HealthStatus
record_health now r c =
    let new_status = if r.success then healthy else unhealthy in
    let became_failed = not (is_unhealthy c.health_status) && not r.success in
    let recovered = is_unhealthy c.health_status && r.success in
    (
      record c {
        health_status = new_status;
        health_checked_at = some now;
        health_error = if r.success then "" else r.message;
      },
      if became_failed || recovered then some new_status else none,
    )

-- `send_health_notification.delay` with a status, at a time: what the broker answers.
abbrev pub Queue : Type 0
Queue = ℕ → HealthStatus → Result (Unit {0})

-- How a check ends: the row that is saved, the status that a notification is asked for with, if one is, and
-- the result of the task, which is the error of the broker where it refuses.
pub record Check : Type 0 where
  pub row : Connection
  pub asked : Option HealthStatus
  pub result : Result (Unit {0})

unfoldable pub send_change : Queue → ℕ → Option HealthStatus → Result (Unit {0})
send_change Q now none = ok tt
send_change Q now (some s) = Q now s

-- `health_check_one` on a connection that is found.
unfoldable pub health_check_one : Probe → Queue → ℕ → Connection → Check
unfolding test_by_kind record_health send_change
health_check_one P Q now c =
    let (c', asked) = record_health now (result_of (test_by_kind P now c.kind c)) c in
    record { row = c'; asked = asked; result = send_change Q now asked }

abbrev key_of : Connection → ℕ
key_of c = c.pk

-- `health_check_all`: the connections that a check is queued for.
unfoldable pub health_check_all : List Connection → List ℕ
health_check_all cs = map key_of cs

abbrev pub note : Option HealthStatus → List HealthStatus → List HealthStatus
note none statuses = statuses
note (some s) statuses = s ∷ statuses

-- The checks of one connection at these times: the row, and the statuses that notifications were asked for
-- with, the first one first.
unfoldable pub health_checks : Probe → Queue → List ℕ → Connection → Connection × List HealthStatus
unfolding health_check_one
health_checks P Q [] c = (c, [])
health_checks P Q (now ∷ times) c =
    let check = health_check_one P Q now c in
    let (last, rest) = health_checks P Q times check.row in (last, note check.asked rest)
