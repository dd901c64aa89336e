-- ===== src/Flows.antt =====
-- The pages of flows (services/web/apps/flows/views.py, forms.py), with what Django removes beside a flow
-- (services/web/apps/flows/models.py, scheduler/models.py, transfers/models.py).
pub mod Stored
mod Tests
use tmask_tt.Base.{
  ℕ, String, ◌<>◌, Bool, true, false, ◌&&◌, not, Option, none, some, List, [], ◌∷◌, ◌==◌, any,
  is_some, str_eq, truthy, if◌then◌else◌,
}
use tmask_tt.Base.Text.{Text, codes, text_eq}
use tmask_tt.Accounts.{User, admin, operator}
use tmask_tt.Audit.{
  Value, text, flag, row, null, Instance, Entry, Subject, diff_fields, log_created, log_updated,
  log_deleted,
}
use tmask_tt.Pages.{
  Method, Answer, done, failed, form_page, page_error, with_role, post_only, or_404, find_row,
  save_row, delete_row,
}
use tmask_tt.Scheduler.{FormRequest, shown, invalid, filled}
use tmask_tt.Worker.{Result, ok, err}
use tmask_tt.Transfers.{Job}
use tmask_tt.Transfers.Paths.{validate_transfer_path}
use tmask_tt.Transfers.Upkeep.{Schedule}
use tmask_tt.Api.Start.{new_job}
use tmask_tt.Uploads.{set_task}

-- What the pages use of a row of `Connection`: its key, whether its kind is SSH, and its `str`.
pub record Host : Type 0 where
  pub pk : ℕ
  pub is_ssh : Bool
  pub shown_as : String

-- A row of `Flow`.
pub record FlowRow : Type 0 where
  pub pk : ℕ
  pub owner : ℕ
  pub name : String
  pub source_conn : ℕ
  pub source_path : String
  pub dest_conn : ℕ
  pub dest_path : String
  pub verify_checksum : Bool

-- `FlowForm`, where Django's own checks of the fields pass but for the choice of the connections.
pub record FlowForm : Type 0 where
  pub name : String
  pub source_conn : ℕ
  pub source_path : String
  pub dest_conn : ℕ
  pub dest_path : String
  pub verify_checksum : Bool

-- The rows that the views read and write, each table with the newest row first, and the jobs that a task
-- was sent for. The schedules are given by the keys of their flows.
pub record FlowTables : Type 0 where
  pub hosts : List Host
  pub flows : List FlowRow
  pub schedules : List Schedule
  pub jobs : List Job
  pub sent : List ℕ
  pub log : List Entry

abbrev pub flow_key : FlowRow → ℕ
flow_key f = f.pk

abbrev host_key : Host → ℕ
host_key h = h.pk

-- A choice of the field's query set: the connections of kind SSH.
unfoldable pub is_choice : List Host → ℕ → Bool
unfolding find_row
is_choice hosts pk = elim (find_row host_key pk hosts) [ none ↦ false | some h ↦ h.is_ssh ]

-- `clean_source_path` and `clean_dest_path`
unfoldable pub is_path : String → Bool
is_path value = if truthy value then not (is_some (validate_transfer_path (codes value))) else true

-- `Flow.clean`: no flow from a file to itself.
unfoldable pub is_same_file : FlowForm → Bool
is_same_file f = (f.source_conn == f.dest_conn) && str_eq f.source_path f.dest_path

-- `form.is_valid()` behind Django's own checks.
unfoldable pub is_valid : List Host → FlowForm → Bool
unfolding is_choice is_path is_same_file
is_valid hosts f =
    is_choice hosts f.source_conn
    && is_choice hosts f.dest_conn
    && is_path f.source_path
    && is_path f.dest_path
    && not (is_same_file f)

unfoldable pub with_flow_form :
    FormRequest FlowForm → FlowTables → (FlowForm → Answer × FlowTables) → Answer × FlowTables
unfolding is_valid
with_flow_form shown t view = (form_page, t)
with_flow_form invalid t view = (form_page, t)
with_flow_form (filled f) t view = if is_valid t.hosts f then view f else (form_page, t)

-- `form.save()`
unfoldable pub write_flow : FlowForm → FlowRow → FlowRow
write_flow f r = record r {
  name = f.name;
  source_conn = f.source_conn;
  source_path = f.source_path;
  dest_conn = f.dest_conn;
  dest_path = f.dest_path;
  verify_checksum = f.verify_checksum;
}

abbrev blank : ℕ → ℕ → FlowRow
blank pk owner = record {
  pk = pk;
  owner = owner;
  name = "";
  source_conn = 0;
  source_path = "";
  dest_conn = 0;
  dest_path = "";
  verify_checksum = false;
}

abbrev host_value : List Host → ℕ → Value
host_value hosts pk = elim (find_row host_key pk hosts) [
  | none ↦ null
  | some h ↦ row h.pk h.shown_as
]

-- `getattr` of FLOW_TRACKED_FIELDS.
unfoldable pub flow_values : List Host → FlowRow → Instance
unfolding find_row
flow_values hosts f field =
    if str_eq field "name"
    then text f.name
    else if str_eq field "source_conn"
    then host_value hosts f.source_conn
    else if str_eq field "source_path"
    then text f.source_path
    else if str_eq field "dest_conn"
    then host_value hosts f.dest_conn
    else if str_eq field "dest_path"
    then text f.dest_path
    else if str_eq field "verify_checksum"
    then flag f.verify_checksum
    else null

abbrev pub flow_tracked_fields : List String
flow_tracked_fields =
    "name" ∷ "source_conn" ∷ "source_path" ∷ "dest_conn" ∷ "dest_path" ∷ "verify_checksum" ∷ []

-- `str(flow)`
abbrev pub flow_subject : FlowRow → Subject
flow_subject f = record { model = "Flow"; pk = f.pk; repr = f.name }

unfoldable pub flow_create :
    Option User → ℕ → FormRequest FlowForm → FlowTables → Answer × FlowTables
unfolding with_role with_flow_form write_flow log_created
flow_create actor new request t = with_role admin actor t (λ u. with_flow_form request t (λ f.
    let flow = write_flow f (blank new u.pk) in
    (done, record t { flows = flow ∷ t.flows; log = log_created u.pk (flow_subject flow) t.log })))

unfoldable pub flow_edit : Option User → ℕ → FormRequest FlowForm → FlowTables → Answer × FlowTables
unfolding with_role with_flow_form write_flow find_row save_row diff_fields flow_values log_updated
flow_edit actor pk request t = with_role admin actor t (λ u.
    or_404 (find_row flow_key pk t.flows) t (λ before. with_flow_form request t (λ f.
      let flow = write_flow f before in
      let changes =
        diff_fields (flow_values t.hosts before) (flow_values t.hosts flow) flow_tracked_fields
          [] in
      (
        done,
        record t {
          flows = save_row flow_key flow t.flows;
          log = log_updated u.pk (flow_subject flow) changes t.log;
        },
      ))))

-- `on_delete=CASCADE` of `ScheduledTransfer.flow`
unfoldable pub cascade_schedules : ℕ → List Schedule → List Schedule
cascade_schedules pk [] = []
cascade_schedules pk (s ∷ ss) =
    let rest = cascade_schedules pk ss in
    let of_flow : Bool = elim s.flow [ none ↦ false | some f ↦ f.pk == pk ] in
    if of_flow then rest else s ∷ rest

-- `on_delete=SET_NULL` of `TransferJob.flow`
unfoldable pub forget_flow : ℕ → List Job → List Job
forget_flow pk [] = []
forget_flow pk (j ∷ js) =
    let of_flow : Bool = elim j.flow [ none ↦ false | some k ↦ k == pk ] in
    (if of_flow then record j { flow = none } else j) ∷ forget_flow pk js

unfoldable pub flow_delete : Option User → Method → ℕ → FlowTables → Answer × FlowTables
unfolding with_role find_row delete_row cascade_schedules forget_flow log_deleted
flow_delete actor method pk t = with_role admin actor t (λ u. post_only method t (
    or_404 (find_row flow_key pk t.flows) t (λ flow. (
      done,
      record t {
        flows = delete_row flow_key flow.pk t.flows;
        schedules = cascade_schedules flow.pk t.schedules;
        jobs = forget_flow flow.pk t.jobs;
        log = log_deleted u.pk (flow_subject flow) t.log;
      },
    ))))

-- The key of a new job, and the name that the broker gives its task, after the jobs that it has.
pub record Broker : Type 0 where
  pub new_pk : List Job → ℕ
  pub send_task : List ℕ → ℕ → Result String

-- The job of `flow_run` and its `_dispatch`.
unfoldable pub run_flow : Broker → ℕ → User → FlowRow → FlowTables → Answer × FlowTables
unfolding new_job set_task
run_flow B now u f t =
    let pk = B.new_pk t.jobs in
    let jobs = new_job pk now u.pk none (some f.pk) f.source_path f.dest_path ∷ t.jobs in
    elim (B.send_task t.sent pk) [
      | err e ↦ (failed, record t { jobs = jobs })
      | ok task ↦ (done, record t { jobs = set_task pk task jobs; sent = pk ∷ t.sent })
    ]

unfoldable pub flow_run : Broker → ℕ → Option User → Method → ℕ → FlowTables → Answer × FlowTables
unfolding with_role find_row run_flow
flow_run B now actor method pk t =
    with_role operator actor t (λ u.
      post_only method t (or_404 (find_row flow_key pk t.flows) t (λ f. run_flow B now u f t)))
