-- ===== src/Connections/Testers.antt =====
-- The four functions `test_connection` (services/web/apps/connections/ssh_tester.py, pg_tester.py,
-- mysql_tester.py, mssql_tester.py).
use tmask_tt.Base.{ℕ, String, ◌<>◌, Bool, true, false, ◌&&◌, truthy, if◌then◌else◌}
use tmask_tt.Base.Str.{strip}
use tmask_tt.Worker.{Result, ok, err, auth_error, ssh_error, timeout_error, operational_error}
use tmask_tt.Worker.Params.{Tools, none_if_empty}
use tmask_tt.Worker.Files.{load_private_key}
use tmask_tt.Database.Mssql.{conn_string}
use tmask_tt.Connections.{Connection}

-- `SSHTestResult`, `PgTestResult` and so on.
pub record TestResult : Type 0 where
  pub success : Bool
  pub message : String

-- What an SSH client logs in with: a key or a password.
pub data Secret : Type 0 where
  by_key : String → Secret
  by_password : String → Secret

-- What the testers call, at a time: the `connect` of the drivers with their parameters, psycopg2's
-- `SELECT 1`, and paramiko.
pub record Probe : Type 0 where
  pub tools : Tools
  pub pg_connect : ℕ → Connection → Result (Unit {0})
  pub pg_select : ℕ → Connection → Result (Unit {0})
  pub mysql_connect : ℕ → Connection → Result (Unit {0})
  pub mssql_connect : ℕ → String → Result (Unit {0})
  -- `load_host_keys` of a temporary file with this text
  pub load_host_keys : String → Result (Unit {0})
  -- `client.connect(...)`; the Boolean tells `RejectPolicy` from `AutoAddPolicy`
  pub ssh_connect : ℕ → Connection → Bool → Secret → Result (Unit {0})

abbrev pub passed : TestResult
passed = record { success = true; message = "CONNECTION OK" }

abbrev failed_with : String → TestResult
failed_with text = record { success = false; message = text }

-- `except ….OperationalError as e`
unfoldable pub driver_outcome : Result (Unit {0}) → Result TestResult
unfolding strip
driver_outcome (ok done) = ok passed
driver_outcome (err (operational_error m)) = ok (failed_with (strip ("CONNECTION FAILED — " <> m)))
driver_outcome (err e) = err e

abbrev and_then : Result (Unit {0}) → Result (Unit {0}) → Result (Unit {0})
and_then (ok done) next = next
and_then (err e) next = err e

-- pg_tester.py
unfoldable pub test_postgres : Probe → ℕ → Connection → Result TestResult
unfolding driver_outcome
test_postgres P now c = driver_outcome (and_then (P.pg_connect now c) (P.pg_select now c))

-- mysql_tester.py
unfoldable pub test_mysql : Probe → ℕ → Connection → Result TestResult
unfolding driver_outcome
test_mysql P now c = driver_outcome (P.mysql_connect now c)

-- mssql_tester.py, whose `_conn_string` is that of the handler
unfoldable pub test_mssql : Probe → ℕ → Connection → Result TestResult
unfolding driver_outcome conn_string
test_mssql P now c =
    driver_outcome (P.mssql_connect now (conn_string c.host c.port c.db_name c.username c.password))

-- The `except` clauses of ssh_tester.py.
unfoldable pub ssh_outcome : Connection → Result (Unit {0}) → Result TestResult
ssh_outcome c (ok done) = ok passed
ssh_outcome c (err (auth_error m)) =
    ok (failed_with "AUTH FAILED — nieprawidłowe dane uwierzytelniania")
ssh_outcome c (err (timeout_error m)) =
    ok (failed_with ("CONNECTION TIMEOUT — " <> (c.host <> " nieosiągalny")))
ssh_outcome c (err (ssh_error m)) = ok (failed_with ("SSH ERROR — " <> m))
ssh_outcome c (err e) = err e

abbrev connect_with_key : Probe → ℕ → Connection → Bool → Result String → Result (Unit {0})
connect_with_key P now c rejects (ok key) = P.ssh_connect now c rejects (by_key key)
connect_with_key P now c rejects (err e) = err e

-- The `try` block of ssh_tester.py.
unfoldable pub test_login : Probe → ℕ → Connection → Bool → Result TestResult
unfolding ssh_outcome load_private_key
test_login P now c rejects =
    if truthy c.ssh_key
    then ssh_outcome c (
        connect_with_key P now c rejects
          (load_private_key P.tools c.ssh_key (none_if_empty c.ssh_key_passphrase)))
    else if truthy c.password
    then ssh_outcome c (P.ssh_connect now c rejects (by_password c.password))
    else ok (failed_with "AUTH FAILED — brak danych uwierzytelniania")

abbrev behind_keys : Result (Unit {0}) → Result TestResult → Result TestResult
behind_keys (ok done) next = next
behind_keys (err e) next = err e

-- ssh_tester.py
unfoldable pub test_ssh : Probe → ℕ → Connection → Result TestResult
unfolding test_login
test_ssh P now c =
    if c.strict_host_key_checking && truthy c.known_host_key
    then behind_keys (P.load_host_keys c.known_host_key) (test_login P now c true)
    else test_login P now c false
