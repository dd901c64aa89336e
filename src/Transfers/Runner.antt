-- ===== src/Transfers/Runner.antt =====
-- The tasks around the handlers of files (services/worker/tasks.py): the parameters, the choice of the
-- handler and the preview.
use mathlib.Core.List.{reverse}
use tmask_tt.Base.{
  ℕ, String, ◌<>◌, Bool, false, ◌&&◌, not, str_eq, Option, none, some, [], ◌==◌, is_some,
  if◌then◌else◌,
}
use tmask_tt.Base.Str.{show}
use tmask_tt.Worker.{World, Result, Eff, pure, ◌>>◌, when, log, warn}
use tmask_tt.Worker.Params.{Params, Tools}
use tmask_tt.Worker.Sftp.{Ssh}
use tmask_tt.Worker.Relay.{Remote}
use tmask_tt.Worker.Rsync as Rsync
use tmask_tt.Worker.Rsync.Preview.{Preview, preview}
use tmask_tt.Worker.Sftp as Sftp
use tmask_tt.Worker.Relay as Relay
use tmask_tt.Webhooks.Payload.{Protocol, sftp, rsync}
use tmask_tt.Transfers.{Job}
use tmask_tt.Transfers.Execute.{Broker, Disk, Run, execute_transfer}

-- What the tasks read of a connection to a host.
pub record Host : Type 0 where
  pub pk : ℕ
  pub host : String
  pub port : ℕ
  pub username : String
  pub password : String
  pub ssh_key : String
  pub ssh_key_passphrase : String
  pub protocol : Protocol
  pub compress : Bool
  pub encrypt : Bool
  pub strict_host_key_checking : Bool
  pub known_host_key : String
  pub dry_run_before_transfer : Bool
  pub verify_checksum : Bool

pub record Flow : Type 0 where
  pub pk : ℕ
  pub source_conn : Host
  pub source_path : String
  pub dest_conn : Host
  pub dest_path : String
  pub verify_checksum : Bool

-- `Flow.clean` (services/web/apps/flows/models.py): the message of its `ValidationError`.
unfoldable pub clean_flow : Flow → Option String
clean_flow f =
    if (f.source_conn.pk == f.dest_conn.pk) && str_eq f.source_path f.dest_path
    then some "Source and destination cannot be the same file on the same server."
    else none

-- `_build_params`
unfoldable pub build_params : Host → Job → Option String → Params
build_params c j gpg_passphrase = record {
  host = c.host;
  port = c.port;
  username = c.username;
  password = c.password;
  ssh_key = c.ssh_key;
  ssh_key_passphrase = c.ssh_key_passphrase;
  source_path = j.source_path;
  destination_path = j.destination_path;
  compress = c.compress;
  encrypt = c.encrypt;
  gpg_passphrase = gpg_passphrase;
  strict_host_key_checking = c.strict_host_key_checking;
  known_host_key = c.known_host_key;
  dry_run = c.dry_run_before_transfer;
  verify_checksum = c.verify_checksum;
}

-- `_conn_params`. The relay reads no other key than these and `verify_checksum`.
unfoldable pub conn_params : Host → String → String → Params
conn_params c source_path destination_path = record {
  host = c.host;
  port = c.port;
  username = c.username;
  password = c.password;
  ssh_key = c.ssh_key;
  ssh_key_passphrase = c.ssh_key_passphrase;
  source_path = source_path;
  destination_path = destination_path;
  compress = false;
  encrypt = false;
  gpg_passphrase = none;
  strict_host_key_checking = c.strict_host_key_checking;
  known_host_key = c.known_host_key;
  dry_run = false;
  verify_checksum = false;
}

-- `_build_relay_params`
unfoldable pub build_relay_params : Flow → Params × Params
unfolding conn_params
build_relay_params f = (
  record (conn_params f.source_conn f.source_path f.source_path) {
    verify_checksum = f.verify_checksum;
  },
  conn_params f.dest_conn f.source_path f.dest_path,
)

-- What a job points to: `job.flow` where there is one, and `job.connection` else.
pub data Way : Type 0 where
  by_flow : Flow → Way
  by_host : Host → Way

abbrev pub no_passphrase_warning : String
no_passphrase_warning =
    "GPG encryption enabled but no passphrase provided — file will not be encrypted"

module _ (T : Tools) (S : Ssh) (R : Remote) where
  unfoldable pub run_protocol : Protocol → Params → Eff (Unit {0})
  unfolding Sftp.execute Rsync.execute
  run_protocol sftp p = Sftp.execute T S p
  run_protocol rsync p = Rsync.execute T p

  -- `_run_transfer`
  unfoldable pub run_transfer : Way → Job → Option String → Eff (Unit {0})
  unfolding build_relay_params build_params run_protocol Relay.execute
  run_transfer (by_flow f) j gpg_passphrase =
      let (source_params, dest_params) = build_relay_params f in
      Relay.execute T S R source_params dest_params
  run_transfer (by_host c) j gpg_passphrase = do
    when (c.encrypt && not (is_some gpg_passphrase)) (log warn no_passphrase_warning)
    run_protocol c.protocol (build_params c j gpg_passphrase)

  -- `execute_transfer` with the handler that it runs, in a world without events.
  unfoldable pub run_task :
      Broker → Disk → String → ℕ → ℕ → Way → Option String → Job → World → Result (Unit {0}) × Run
  unfolding run_transfer execute_transfer
  run_task B D task now later way gpg_passphrase j w =
      let (result, w') = run_transfer way j gpg_passphrase (record w { events = [] }) in
      execute_transfer B D task now later (result, reverse w'.events) j

-- `dry_run_preview` on a connection that is found.
unfoldable pub preview_params : Host → String → String → Option String → Params
preview_params c source_path destination_path gpg_passphrase = record {
  host = c.host;
  port = c.port;
  username = c.username;
  password = c.password;
  ssh_key = c.ssh_key;
  ssh_key_passphrase = c.ssh_key_passphrase;
  source_path = source_path;
  destination_path = destination_path;
  compress = c.compress;
  encrypt = c.encrypt;
  gpg_passphrase = gpg_passphrase;
  strict_host_key_checking = c.strict_host_key_checking;
  known_host_key = c.known_host_key;
  dry_run = false;
  verify_checksum = false;
}

abbrev absent : ℕ → Preview
absent connection = record {
  exit_code = none;
  output = "Connection " <> (show connection <> " nie istnieje");
}

unfoldable pub dry_run_preview :
    Tools → ℕ → Option Host → String → String → Option String → Eff Preview
unfolding preview_params preview
dry_run_preview T connection none source_path destination_path gpg_passphrase =
    pure (absent connection)
dry_run_preview T connection (some c) source_path destination_path gpg_passphrase =
    preview T (preview_params c source_path destination_path gpg_passphrase)
