-- ===== src/Scheduler/Tests.antt =====
-- A run of the pages of schedules.
use tmask_tt.Base.{true, false, some, []}
use tmask_tt.Base.Text.{codes}
use tmask_tt.Accounts.Tests.{ann}
use tmask_tt.Webhooks.Payload.{sftp}
use tmask_tt.Transfers.Runner.{Host, Flow}
use tmask_tt.Scheduler.{Schedules, ScheduleForm, Printer, filled, schedule_create}

abbrev printer : Printer
printer = record { flow_text = λ f. "night"; text_of = λ t. "0 4 * * *" }

abbrev no_schedules : Schedules
no_schedules = record { schedules = []; tasks = []; log = [] }

abbrev host : Host
host = record {
  pk = 1;
  host = "h";
  port = 22;
  username = "u";
  password = "p";
  ssh_key = "";
  ssh_key_passphrase = "";
  protocol = sftp;
  compress = false;
  encrypt = false;
  strict_host_key_checking = false;
  known_host_key = "";
  dry_run_before_transfer = false;
  verify_checksum = false;
}

abbrev flow : Flow
flow = record {
  pk = 5;
  source_conn = host;
  source_path = "/a";
  dest_conn = host;
  dest_path = "/b";
  verify_checksum = false;
}

abbrev nightly : ScheduleForm
nightly = record { flow = flow; cron_expr = codes "0 4 * * *"; enabled = true }

abbrev made : Schedules
made = (schedule_create printer (some ann) 9 (filled nightly) no_schedules).1
