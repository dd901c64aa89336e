-- ===== src/Database/Tests.antt =====
-- Runs of the handlers of the databases.
use tmask_tt.Base.{ℕ, ◌≡◌, refl, inl, ◌<>◌, true, false, none, some, List, [], ◌∷◌, map}
use tmask_tt.Base.Text.{
  Text, codes, take_while, drop_while, after_prefix, after_char, strip, strip_of, strip_right,
  split_on, join_with, lower, has_sub,
}
use tmask_tt.Base.Str.{join}
use tmask_tt.Masking.{
  Faker, Profile, get, cut, is_provider, mask_value, mask_columns, length_of, rules_for,
}
use tmask_tt.Worker.{World, ok, ◌>>=◌, pure, ask, emit, catch, when, raise_if}
use tmask_tt.Worker.Params.{Tools, exited}
use tmask_tt.Transfers.{pending}
use tmask_tt.Database.Params.{DbParams, Drivers}
use tmask_tt.Database.Written.{lines_through}
use tmask_tt.Database.Pipe.{relay, warn_of, drain, run_pipe, retry_loop, with_retries}
use tmask_tt.Database.Counts.{fetch_column_lengths}
use tmask_tt.Database.Postgres.{build_pg_dump_cmd, build_psql_cmd}
use tmask_tt.Database.Postgres as Postgres
use tmask_tt.Database.Retries.{HasEnded}
use tmask_tt.Database.Postgres.Stream.{
  empty_stream, copy_header, table_of, columns_of, values_of, line_of, relay_line,
}
use tmask_tt.Database.Postgres.Dump.{block, mask_rows, relay_line-block}
use tmask_tt.Database.Mysql.Values.{split_values, quote_mysql_value}
use tmask_tt.Database.Mysql.Quotes.{split_values-join_with}
use tmask_tt.Database.Mssql.{Server, transfer_once}
use tmask_tt.Database.Mssql.Cleanup.{transfer_once_leaves_no_files}
use tmask_tt.Database.Task.{
  Connection, database, postgres, DbTransferJob, masking_rules_for, masking_rules_from,
  execute_db_transfer, run_handler, build_db_transfer_params, conclude, mark_running, mark_done,
}
use tmask_tt.Database.Task.Outcome.{execute_db_transfer_done}

abbrev faker : Faker
faker = record { draw = λ n provider. codes "Jan" }

abbrev profile : Profile
profile = (codes "users", (codes "name", "name") ∷ []) ∷ []

abbrev header : Text
header = codes "COPY public.users (id, name) FROM stdin;\n"

abbrev rows : List (List Text)
rows = (codes "1" ∷ codes "Anna" ∷ []) ∷ (codes "2" ∷ codes "Ola" ∷ []) ∷ []

abbrev masked_rows : List (List Text)
masked_rows = (codes "1" ∷ codes "Jan" ∷ []) ∷ (codes "2" ∷ codes "Jan" ∷ []) ∷ []

relay_line-block_example :
    lines_through (relay_line faker profile [] true) empty_stream (block header rows)
    ≡ ok (
      record {
        current_table = none;
        current_columns = [];
        current_rules = [];
        warned_tables = [];
        drawn = 2;
      },
      block header masked_rows,
    )
unfolding copy_header take_while drop_while after_prefix table_of strip_of after_char columns_of
    values_of strip_right split_on line_of join_with strip rules_for get mask_rows mask_columns
    mask_value is_provider cut length_of
relay_line-block_example =
    relay_line-block faker profile [] true empty_stream header (codes "public.users")
      (codes "id, name") rows masked_rows 2 refl refl refl refl
      (
        record { is_kept = refl; no_header = refl; no_end = refl; read_back = refl },
        (record { is_kept = refl; no_header = refl; no_end = refl; read_back = refl }, tt),
      )
      refl

split_values-join_with_example :
    split_values (join_with b',' (map quote_mysql_value (codes "O'Hara, \\n" ∷ codes "" ∷ [])))
    ≡ map quote_mysql_value (codes "O'Hara, \\n" ∷ codes "" ∷ [])
split_values-join_with_example =
    split_values-join_with (codes "O'Hara, \\n") (codes "" ∷ []) (refl, (refl, tt))

abbrev drivers : Drivers
drivers = record {
  connect = λ w side. ok tt;
  max_lengths = λ w table rules. ok [];
  names = λ w query args. ok ("users" ∷ []);
  count = λ w side query. ok 2;
  identifier = λ name. name;
  version = λ w. ok (codes "8.0.35");
  launch = λ w cmd. ok tt;
  dump = λ w. block header rows;
  write = λ w line. ok tt;
  messages = λ w. [];
  exits = λ w. (exited 0, exited 0);
  faker = faker;
}

abbrev tools : Tools
tools = record {
  run = λ w cmd. ok (record { lines = []; code = exited 0 });
  temp_name = λ w suffix. "/tmp/tmp1" <> suffix;
  write_temp = λ w path text. ok tt;
  capture = λ w cmd. ok (exited 0, "", "");
  from_private_key = λ c key passphrase. ok key;
  gpg = λ w source passphrase path. ok (exited 0, "");
  local_sha256 = λ w path. ok "";
}

abbrev server : Server
server = record {
  column_rows = λ w table. ok [];
  key_columns = λ w table. ok [];
  read_lines = λ w path. ok [];
}

abbrev params : DbParams
params = record {
  source_host = "a";
  source_port = 1433;
  source_username = "u";
  source_password = "p";
  source_db_name = "d";
  dest_host = "b";
  dest_port = 1433;
  dest_username = "u";
  dest_password = "p";
  dest_db_name = "d";
  table_name = some "users";
  verify_row_count = true;
  masking_rules = profile;
}

abbrev world : World
world = record {
  events = [];
  temps = "/tmp/other" ∷ [];
  encrypted_path = none;
  known_hosts_path = none;
  ssh_key_path = none;
  tmp_paths = [];
}

transfer_once_leaves_no_files_example :
    (transfer_once tools drivers server params world).1.temps ≡ "/tmp/other" ∷ []
transfer_once_leaves_no_files_example =
    transfer_once_leaves_no_files tools drivers server params world

abbrev connection : ℕ → Connection
connection pk = record {
  pk = pk;
  kind = database postgres;
  host = "h";
  port = 5432;
  username = "u";
  password = "p";
  db_name = "d";
}

abbrev job : DbTransferJob
job = record {
  pk = 1;
  created_at = 0;
  source_connection = connection 1;
  dest_connection = connection 2;
  engine = postgres;
  table_name = "";
  verify_row_count = false;
  status = pending;
  celery_task_id = "";
  started_at = none;
  finished_at = none;
  error_message = "";
  cancelled_by = none;
}

execute_db_transfer_done_example : HasEnded drivers
unfolding execute_db_transfer run_handler build_db_transfer_params masking_rules_for
    masking_rules_from conclude mark_running mark_done Postgres.execute Postgres.run_dump
    Postgres.check_output build_pg_dump_cmd build_psql_cmd fetch_column_lengths with_retries
    retry_loop run_pipe relay relay_line copy_header take_while drop_while after_prefix drain
    warn_of ◌>>=◌ pure ask emit catch when raise_if lower has_sub join
execute_db_transfer_done_example =
    execute_db_transfer_done tools drivers server [] "task" 10 20 job world (inl refl) refl
