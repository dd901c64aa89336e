-- ===== src/Transfers/Tests.antt =====
-- Jobs, their tasks and the cleanup on concrete rows.
use tmask_tt.Base.{◌≡◌, refl, true, false, none, some, List, [], ◌∷◌}
use tmask_tt.Base.Text.{codes}
use tmask_tt.Worker.{Event, logged, progressed, info, transfer_error, ok, err}
use tmask_tt.Worker.{World}
use tmask_tt.Worker.Params.{Tools, exited}
use tmask_tt.Worker.Sftp.{Ssh}
use tmask_tt.Worker.Relay.{Remote}
use tmask_tt.Webhooks.Payload.{sftp}
use tmask_tt.Transfers.Runner.{Host}
use tmask_tt.Transfers.{Job, pending, done, mark_running, mark_done}
use tmask_tt.Base.Text.{codes, split_on}
use tmask_tt.Transfers.Paths.{
  slash, parts, validate_transfer_path, walk, StaysBelow, validate_transfer_path_stays,
}
use tmask_tt.Transfers.Execute.{Broker, Disk, execute_transfer}
use tmask_tt.Transfers.Outcome.{
  all_queued, execute_transfer_done, is_terminal, execute_transfer_ends,
}
use tmask_tt.Transfers.Lifecycle.{
  IsConsistent, HasStarted, settling, starts, completes, stay, step, Steps-IsConsistent,
}

abbrev job : Job
job = record {
  pk = 7;
  owner = 1;
  connection = some 3;
  flow = none;
  source_path = "/data/a";
  destination_path = "/b";
  status = pending;
  celery_task_id = "";
  created_at = 1;
  started_at = none;
  finished_at = none;
  error_message = "";
  cancelled_by = none;
  progress_percent = none;
}

abbrev takes_all : Broker
takes_all = record { delay = λ queued t. ok tt }

abbrev down : Broker
down = record { delay = λ queued t. err (transfer_error "no broker") }

abbrev disk : Disk
disk = record { is_inside = λ path. ok true; unlink = λ path. ok tt }

abbrev events : List Event
events = logged info "start" ∷ progressed 10 ∷ progressed 10 ∷ progressed 60 ∷ []

execute_transfer_done_example :
    let (result, r) = execute_transfer takes_all disk "t" 5 9 (ok tt, events) job in
    (result ≡ ok tt)
    × (r.job.status ≡ done)
    × (r.job.progress_percent ≡ some 100)
    × (r.job.finished_at ≡ some 9)
    × (r.queued ≡ all_queued)
execute_transfer_done_example =
    execute_transfer_done takes_all disk "t" 5 9 events job (λ queued t. refl)

execute_transfer_ends_example :
    is_terminal (execute_transfer down disk "t" 5 9 (ok tt, events) job).1.job.status ≡ true
execute_transfer_ends_example = execute_transfer_ends down disk "t" 5 9 (ok tt, events) job

Steps-IsConsistent_example :
    IsConsistent (mark_done 8 (mark_running "t" 5 job))
    × HasStarted settling (mark_done 8 (mark_running "t" 5 job))
Steps-IsConsistent_example =
    Steps-IsConsistent {i = job} (refl, refl) tt (step (starts "t" 5) (step (completes 8) stay))

validate_transfer_path_stays_example :
    StaysBelow (codes "data" ∷ []) (walk (codes "data" ∷ []) (split_on slash (codes "in/a")))
    × StaysBelow (codes "data" ∷ []) (walk (codes "data" ∷ []) (parts (codes "in/a")))
unfolding validate_transfer_path parts
validate_transfer_path_stays_example =
    validate_transfer_path_stays (codes "in/a") (codes "data" ∷ []) refl

abbrev tools : Tools
tools = record {
  run = λ w cmd. ok (record { lines = []; code = exited 0 });
  temp_name = λ w suffix. "/tmp/t";
  write_temp = λ w path text. ok tt;
  capture = λ w cmd. ok (exited 0, "", "");
  from_private_key = λ c text pass. ok text;
  gpg = λ w source pass out. ok (exited 0, "");
  local_sha256 = λ w path. ok "";
}

abbrev ssh : Ssh
ssh = record {
  load_host_keys = λ w text. ok tt;
  connect = λ w c args. ok tt;
  put = λ w c source dest. ([], ok tt);
  exec_command = λ w c cmd. ok (exited 0, "abc", "");
  percent = λ done total. 100;
}

abbrev remote : Remote
remote = record {
  open_sftp = λ w c. ok tt;
  stat = λ w c path. ok (record { is_dir = false; is_file = true; size = 3 });
  listdir_attr = λ w c path. ok [];
  get = λ w c path tmp. ok tt;
  put = λ w c tmp path. ok tt;
  getfo = λ w c path. ok [];
  putfo = λ w c bytes path. ok tt;
  basename = λ path. path;
}

abbrev host : Host
host = record {
  pk = 3;
  host = "host";
  port = 22;
  username = "u";
  password = "p";
  ssh_key = "";
  ssh_key_passphrase = "";
  protocol = sftp;
  compress = false;
  encrypt = false;
  strict_host_key_checking = false;
  known_host_key = "";
  dry_run_before_transfer = false;
  verify_checksum = false;
}

abbrev world : World
world = record {
  events = [];
  temps = [];
  encrypted_path = none;
  known_hosts_path = none;
  ssh_key_path = none;
  tmp_paths = [];
}
