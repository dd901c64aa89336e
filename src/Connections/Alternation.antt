-- ===== src/Connections/Alternation.antt =====
-- The notifications of a sequence of health checks (services/worker/tasks.py, `health_check_one`).
use tmask_tt.Base.{ℕ, Bool, true, false, not, ◌&&◌, ◌||◌, none, some, List, [], ◌∷◌, if◌then◌else◌}
use tmask_tt.Connections.{Connection, HealthStatus, unknown, healthy, unhealthy}
use tmask_tt.Connections.Testers.{Probe, TestResult}
use tmask_tt.Connections.Health.{
  Queue, is_unhealthy, test_by_kind, result_of, record_health, health_check_one, health_checks,
  note,
}

-- Notices that take turns: the next is a recovery where the connection is known to be unhealthy, and a
-- failure where it is not.
abbrev pub TakeTurns : Bool → List HealthStatus → Type 0
TakeTurns down [] = Unit {0}
TakeTurns down (unknown ∷ rest) = ⊥
TakeTurns true (healthy ∷ rest) = TakeTurns false rest
TakeTurns true (unhealthy ∷ rest) = ⊥
TakeTurns false (healthy ∷ rest) = ⊥
TakeTurns false (unhealthy ∷ rest) = TakeTurns true rest

turn :
    (before : HealthStatus) (success : Bool) (rest : List HealthStatus)
    → TakeTurns (is_unhealthy (if success then healthy else unhealthy)) rest
    → TakeTurns (is_unhealthy before) (
        note
          (if (not (is_unhealthy before) && not success) || (is_unhealthy before && success)
            then some (if success then healthy else unhealthy)
            else none)
          rest)
turn unknown true rest h = h
turn unknown false rest h = h
turn healthy true rest h = h
turn healthy false rest h = h
turn unhealthy true rest h = h
turn unhealthy false rest h = h

record_health_turn :
    (now : ℕ) (r : TestResult) (c : Connection) (rest : List HealthStatus)
    → TakeTurns (is_unhealthy (record_health now r c).0.health_status) rest
    → TakeTurns (is_unhealthy c.health_status) (note (record_health now r c).1 rest)
unfolding record_health
record_health_turn now r c rest h = turn c.health_status r.success rest h

-- However the checks of a connection end, the notifications that they ask for take turns, whether the
-- broker takes them or refuses: between two failures there is a recovery, between two recoveries a failure,
-- and a connection that was not unhealthy starts with a failure.
pub health_checks-TakeTurns :
    (P : Probe) (Q : Queue) (times : List ℕ) (c : Connection)
    → TakeTurns (is_unhealthy c.health_status) (health_checks P Q times c).1
unfolding health_checks health_check_one
health_checks-TakeTurns P Q [] c = tt
health_checks-TakeTurns P Q (now ∷ times) c =
    let r = result_of (test_by_kind P now c.kind c) in
    let (c', asked) = record_health now r c in
    record_health_turn now r c (health_checks P Q times c').1 (health_checks-TakeTurns P Q times c')
