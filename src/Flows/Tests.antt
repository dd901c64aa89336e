-- ===== src/Flows/Tests.antt =====
-- A run of the pages of flows.
use tmask_tt.Base.{arith, true, some, [], ◌∷◌}
use tmask_tt.Accounts.Tests.{ann}
use tmask_tt.Pages.{find_row, post}
use tmask_tt.Worker.{ok}
use tmask_tt.Scheduler.{filled}
use tmask_tt.Flows.{FlowForm, FlowTables, Broker, flow_create, flow_run}
use tmask_tt.Flows.Stored.{AreSound, here, next, create, run, Steps-AreSound}

abbrev hosts : FlowTables
hosts = record {
  hosts =
      record { pk = 1; is_ssh = true; shown_as = "one" }
      ∷ record { pk = 2; is_ssh = true; shown_as = "two" }
      ∷ [];
  flows = [];
  schedules = [];
  jobs = [];
  sent = [];
  log = [];
}

abbrev broker : Broker
broker = record { new_pk = λ jobs. 7; send_task = λ sent pk. ok "task" }

abbrev nightly : FlowForm
nightly = record {
  name = "night";
  source_conn = 1;
  source_path = "/a";
  dest_conn = 2;
  dest_path = "/a";
  verify_checksum = true;
}

AreSound-hosts : AreSound hosts
unfolding find_row
AreSound-hosts = record { sound = λ k f found. absurd (ground arith) }

abbrev made : FlowTables
made = (flow_create (some ann) 9 (filled nightly) hosts).1

Steps-AreSound_example : AreSound (flow_run broker 3 (some ann) post 9 made).1
Steps-AreSound_example =
    Steps-AreSound
      (next (next here (create (some ann) 9 (filled nightly) hosts))
        (run broker 3 (some ann) post 9 made))
      AreSound-hosts
