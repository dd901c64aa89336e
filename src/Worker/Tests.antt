-- ===== src/Worker/Tests.antt =====
-- The rsync, SFTP and relay handlers with tools that answer every call.
use tmask_tt.Base.{
  ◌⊎◌, ◌+◌, ◌≤◌, if◌then◌else◌, String, List, length, ◌*◌, ◌/◌, ◌<>◌, ◌≡◌, refl, true, false, none,
  some, [], ◌∷◌,
}
use tmask_tt.Worker.{
  ◌>>=◌, catch, ask, emit, pure, when, World, Exn, ok, err, os_error, timeout_error, transfer_error,
}
use tmask_tt.Worker.Params.{Params, Tools, exited}
use tmask_tt.Worker.Rsync.{max_retries, execute}
use tmask_tt.Base.Str.{rstrip_char}
use tmask_tt.Worker.Sftp
use tmask_tt.Worker.Sftp.{Client, Ssh}
use tmask_tt.Worker.Relay.{
  Remote, Stat, regular_files, transfer_directory, transfer_listed, transfer_files, transfer_file,
  transfer_small, copy_small, find_stat,
}
use tmask_tt.Worker.Relay.Outcome.{AllDelivered, transfer_directory_ok}
use tmask_tt.Worker.Sftp.Cleanup.{execute_leaves_no_copy}
use tmask_tt.Worker.Sftp.Outcome.{IsTransferred, execute_ok}
use tmask_tt.Worker.Sftp.Progress.{IsPlain, Answers, execute_completes, execute_gives_up}
use tmask_tt.Worker.Rsync.Cleanup.{FailedWith, execute_leaves_no_files}
use tmask_tt.Worker.Starts.{starts_in}
use tmask_tt.Worker.TempFiles.{Leftover}
use tmask_tt.Worker.Rsync.Attempts.{execute_runs_bound}

abbrev tools : Tools
tools = record {
  run = λ w cmd. ok (record { lines = "sent 10 bytes" ∷ []; code = exited 0 });
  temp_name = λ w suffix. "/tmp/t";
  write_temp = λ w path text. ok tt;
  capture = λ w cmd. ok (exited 0, "", "");
  from_private_key = λ c text pass. ok text;
  gpg = λ w source pass out. ok (exited 0, "");
  local_sha256 = λ w path. ok "";
}

abbrev params : Params
params = record {
  host = "host";
  port = 22;
  username = "u";
  password = "";
  ssh_key = "key";
  ssh_key_passphrase = "";
  source_path = "/data/a";
  destination_path = "/b";
  compress = true;
  encrypt = true;
  gpg_passphrase = some "secret";
  strict_host_key_checking = true;
  known_host_key = "host ssh-rsa AAAA";
  dry_run = false;
  verify_checksum = false;
}

abbrev world : World
world = record {
  events = [];
  temps = "/tmp/other" ∷ [];
  encrypted_path = none;
  known_hosts_path = none;
  ssh_key_path = none;
  tmp_paths = [];
}

-- The same tools on a disk that is full.
abbrev full_disk : Tools
full_disk = record tools { write_temp = λ w path text. err (os_error "No space left on device") }

execute_leaves_no_files_example :
    ((execute full_disk params world).1.temps ≡ "/tmp/other" ∷ [])
    ⊎ ((path : String) × (e : Exn) × FailedWith full_disk path e
        × ((execute full_disk params world).0 ≡ err e)
        × ((execute full_disk params world).1.temps ≡ path ∷ "/tmp/other" ∷ []))
execute_leaves_no_files_example =
    execute_leaves_no_files full_disk (record { names = λ w suffix. refl }) params world

execute_runs_bound_example :
    starts_in (execute tools params world).1.events
    ≤ (if params.dry_run then 1 else 0) + max_retries + starts_in world.events
execute_runs_bound_example = execute_runs_bound tools params world

abbrev ssh : Ssh
ssh = record {
  load_host_keys = λ w text. ok tt;
  connect = λ w c args. ok tt;
  put = λ w c source dest. ((1, 2) ∷ (2, 2) ∷ [], ok tt);
  exec_command = λ w c cmd. ok (exited 0, "abc", "");
  percent = λ done total. done * 100 / total;
}

abbrev dead_ssh : Ssh
dead_ssh = record ssh { connect = λ w c args. err (timeout_error "timed out") }

abbrev plain_params : Params
plain_params = record params {
  ssh_key = "";
  gpg_passphrase = none;
  strict_host_key_checking = false;
}

IsPlain-plain_params : IsPlain plain_params
IsPlain-plain_params = record { no_gpg = refl; no_key = refl; lax = refl; no_checksum = refl }

Answers-ssh : Answers ssh
Answers-ssh = record { connects = λ w c args. refl; puts = λ w c source dest. refl }

execute_leaves_no_copy_example :
    Leftover full_disk ("/tmp/other" ∷ []) (Sftp.execute full_disk ssh params world).1.temps
execute_leaves_no_copy_example =
    execute_leaves_no_copy full_disk ssh params (record { names = λ w suffix. refl }) world

execute_completes_example : (Sftp.execute tools ssh plain_params world).0 ≡ ok tt
execute_completes_example =
    execute_completes tools ssh plain_params IsPlain-plain_params Answers-ssh world

execute_gives_up_example :
    (Sftp.execute tools dead_ssh plain_params world).0
    ≡ err (transfer_error ("CONNECTION TIMEOUT — " <> ("host" <> " unreachable")))
execute_gives_up_example =
    execute_gives_up tools dead_ssh plain_params IsPlain-plain_params
      (λ w c args. ("timed out", refl)) world

execute_completes_run : (Sftp.execute tools ssh plain_params world).0 ≡ ok tt
execute_completes_run =
    execute_completes tools ssh plain_params IsPlain-plain_params Answers-ssh world

execute_ok_example : IsTransferred tools ssh plain_params
execute_ok_example = execute_ok tools ssh plain_params world execute_completes_run

abbrev file : Stat
file = record { is_dir = false; is_file = true; size = 3 }

abbrev remote : Remote
remote = record {
  open_sftp = λ w c. ok tt;
  stat = λ w c path. ok file;
  listdir_attr = λ w c path. ok (("a.txt", file) ∷ ("sub", record file { is_file = false }) ∷ []);
  get = λ w c path tmp. ok tt;
  put = λ w c tmp path. ok tt;
  getfo = λ w c path. ok (1 ∷ 2 ∷ 3 ∷ []);
  putfo = λ w c bytes path. ok tt;
  basename = λ path. path;
}

abbrev client : Client
client = record { host_keys = none; rejects_unknown = false }

transfer_directory_ok_example :
    (v : World) × (entries : List (String × Stat)) × (remote.listdir_attr v client "/in/"
      ≡ ok entries)
    × (length (regular_files entries) ≡ 1)
    × AllDelivered tools ssh remote false client client "/in" "/out" (regular_files entries)
unfolding transfer_directory transfer_listed transfer_files transfer_file transfer_small copy_small
    find_stat regular_files rstrip_char ◌>>=◌ catch ask emit pure when
transfer_directory_ok_example =
    transfer_directory_ok tools ssh remote false client client "/in/" "/out" 1 world refl
