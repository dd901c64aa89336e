-- ===== src/Connections/Tests.antt =====
-- Runs of the health checks, of an export that is imported, and of the browser of remote files.
use tmask_tt.Base.{
  ◌==◌, ℕ, ◌≡◌, String, ◌<>◌, true, false, ◌&&◌, ltb, leb, if◌then◌else◌, none, some, [], ◌∷◌,
}
use tmask_tt.Worker.{Result, ok, err, operational_error}
use tmask_tt.Worker.Params.{Tools, exited}
use tmask_tt.Database.Task.{database, postgres}
use tmask_tt.Connections.{Connection, unknown}
use tmask_tt.Base.Text.{codes, split_on}
use tmask_tt.Transfers.Paths.{slash, walk}
use tmask_tt.Connections.Browse.{browse_path}
use tmask_tt.Connections.Browse.Walked.{walk-browse_path}
use tmask_tt.Connections.Testers.{Probe}
use tmask_tt.Connections.Health.{Queue, health_checks}
use tmask_tt.Connections.Alternation.{TakeTurns, health_checks-TakeTurns}
use tmask_tt.Connections.Portability.{Stored, StoredFlow, Fernet, Account}

abbrev tools : Tools
tools = record {
  run = λ w cmd. ok (record { lines = []; code = exited 0 });
  temp_name = λ w suffix. "/tmp/t";
  write_temp = λ w path text. ok tt;
  capture = λ w cmd. ok (exited 0, "", "");
  from_private_key = λ c text pass. ok text;
  gpg = λ w source pass out. ok (exited 0, "");
  local_sha256 = λ w path. ok "";
}

-- A server that is down from time 3 to 5.
abbrev up_or_down : ℕ → Result (Unit {0})
up_or_down now = if leb 3 now && ltb now 5 then err (operational_error "refused") else ok tt

abbrev probe : Probe
probe = record {
  tools = tools;
  pg_connect = λ now c. up_or_down now;
  pg_select = λ now c. ok tt;
  mysql_connect = λ now c. ok tt;
  mssql_connect = λ now text. ok tt;
  load_host_keys = λ text. ok tt;
  ssh_connect = λ now c rejects secret. ok tt;
}

abbrev connection : Connection
connection = record {
  pk = 1;
  owner = 1;
  name = "db";
  host = "h";
  port = 5432;
  username = "u";
  password = "p";
  ssh_key = "";
  ssh_key_passphrase = "";
  strict_host_key_checking = true;
  known_host_key = "";
  kind = database postgres;
  db_name = "d";
  health_status = unknown;
  health_checked_at = none;
  health_error = "";
}

-- A broker that is down at time 5.
abbrev queue : Queue
queue now status = if now == 5 then err (operational_error "no broker") else ok tt

health_checks-TakeTurns_example :
    TakeTurns false (health_checks probe queue (1 ∷ 3 ∷ 4 ∷ 5 ∷ []) connection).1
health_checks-TakeTurns_example =
    health_checks-TakeTurns probe queue (1 ∷ 3 ∷ 4 ∷ 5 ∷ []) connection

-- A cipher that keeps the text.
abbrev fernet : Fernet
fernet = record {
  derive = λ passphrase salt n. passphrase <> salt;
  encrypt = λ key n s. s;
  decrypt = λ key token. some token;
}

abbrev stored : String → Stored
stored name = record {
  fields = record {
    name = name;
    host = "h";
    port = 22;
    username = "u";
    protocol = "sftp";
    compress = false;
    encrypt = false;
    strict_host_key_checking = true;
    known_host_key = "";
    dry_run_before_transfer = false;
    verify_checksum = true;
  };
  password = some "";
  ssh_key = some "key";
  ssh_key_passphrase = "";
  kind = database postgres;
  db_name = "shop";
}

abbrev flow_between : Stored → Stored → StoredFlow
flow_between src dst = record {
  name = "night";
  source_conn = src;
  source_path = "/a";
  dest_conn = dst;
  dest_path = "/b";
  verify_checksum = true;
}

abbrev account : Account
account = record {
  connections = stored "one" ∷ stored "two" ∷ [];
  flows = flow_between (stored "one") (stored "two") ∷ [];
}

walk-browse_path_example :
    walk [] (split_on slash (browse_path (codes "/data/./in//../out/")))
    ≡ walk [] (split_on slash (codes "/data/./in//../out/"))
walk-browse_path_example = walk-browse_path (codes "/data/./in//../out/")
