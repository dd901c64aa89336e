-- ===== src/Api/Start.antt =====
-- The views that start transfers (services/web/apps/api/views.py, `trigger_connection`,
-- `trigger_flow`).
use tmask_tt.Base.{
  ℕ, String, Bool, not, Option, none, some, List, [], ◌∷◌, ltb, ◌==◌, any, truthy, if◌then◌else◌,
}
use tmask_tt.Base.Str.{strip}
use tmask_tt.Base.Text.{codes}
use tmask_tt.Accounts.{User, role_level, level_of, operator}
use tmask_tt.Worker.{Result, ok, err, other_error}
use tmask_tt.Transfers.{Job, pending}
use tmask_tt.Transfers.Paths.{validate_transfer_path}
use tmask_tt.Transfers.Runner.{Flow}
use tmask_tt.Api.{
  Member, missing, text, other, Body, no_json, no_object, object, Request, Tables, Server, Reply,
  refused, accepted, raised, not_found, forbidden, require_api_token,
}

-- `data.get(name, '').strip()`
unfoldable pub member_text : Member → Result String
unfolding strip
member_text missing = ok ""
member_text (text s) = ok (strip s)
member_text other = err (other_error "object has no attribute 'strip'")

-- The two paths of a body.
unfoldable pub body_paths : Body → Result (String × String)
unfolding member_text
body_paths no_json = ok ("", "")
body_paths no_object = err (other_error "object has no attribute 'get'")
body_paths (object source dest) = elim (member_text source) [
  | err e ↦ err e
  | ok source_path ↦ elim (member_text dest) [
    | err e ↦ err e
    | ok destination_path ↦ ok (source_path, destination_path)
  ]
]

-- The first reason to refuse two paths.
unfoldable pub paths_error : String → String → Option String
paths_error source_path destination_path =
    if not (truthy source_path)
    then some "source_path required"
    else if not (truthy destination_path)
    then some "destination_path required"
    else elim (validate_transfer_path (codes source_path)) [
      | some m ↦ some m
      | none ↦ validate_transfer_path (codes destination_path)
    ]

-- `TransferJob.objects.create(…)`
unfoldable pub new_job : ℕ → ℕ → ℕ → Option ℕ → Option ℕ → String → String → Job
new_job pk now owner connection flow source_path destination_path = record {
  pk = pk;
  owner = owner;
  connection = connection;
  flow = flow;
  source_path = source_path;
  destination_path = destination_path;
  status = pending;
  celery_task_id = "";
  created_at = now;
  started_at = none;
  finished_at = none;
  error_message = "";
  cancelled_by = none;
  progress_percent = none;
}

abbrev pub has_pk : ℕ → Job → Bool
has_pk pk j = j.pk == pk

-- The end of both triggers: the row, the task and the update of the row by its key.
unfoldable pub start_job : Server → Job → Tables → Reply × Tables
start_job S j t = elim (S.send_task t.sent j.pk) [
  | err e ↦ (raised e, record t { jobs = j ∷ t.jobs })
  | ok task ↦ (
    accepted j.pk,
    record t { jobs = record j { celery_task_id = task } ∷ t.jobs; sent = j.pk ∷ t.sent },
  )
]

abbrev pub may_trigger : User → Bool
may_trigger u = not (ltb (role_level u) (level_of operator))

-- `trigger_connection` behind the look at the body.
unfoldable pub trigger_paths :
    Server → ℕ → ℕ → User → Tables → Result (String × String) → Reply × Tables
unfolding paths_error start_job new_job
trigger_paths S now connection u t (err e) = (raised e, t)
trigger_paths S now connection u t (ok (source_path, destination_path)) =
    elim (paths_error source_path destination_path) [
      | some m ↦ (refused 400 m, t)
      | none ↦
          start_job S
            (new_job (S.new_pk t.jobs) now u.pk (some connection) none source_path destination_path)
            t
    ]

unfoldable pub trigger_connection_as : Server → ℕ → ℕ → Body → User → Tables → Reply × Tables
unfolding trigger_paths body_paths
trigger_connection_as S now connection body u t =
    if not (may_trigger u)
    then (forbidden, t)
    else if not (any (λ pk. pk == connection) t.connections)
    then (not_found, t)
    else trigger_paths S now connection u t (body_paths body)

-- `trigger_connection`
unfoldable pub trigger_connection : Server → ℕ → ℕ → Request → Tables → Reply × Tables
unfolding require_api_token trigger_connection_as
trigger_connection S now connection r t =
    require_api_token S now (trigger_connection_as S now connection r.body) r t

unfoldable pub find_flow : ℕ → List Flow → Option Flow
find_flow k [] = none
find_flow k (f ∷ fs) = let rest = find_flow k fs in if f.pk == k then some f else rest

unfoldable pub trigger_flow_as : Server → ℕ → ℕ → User → Tables → Reply × Tables
unfolding find_flow start_job new_job
trigger_flow_as S now flow u t =
    if not (may_trigger u) then (forbidden, t) else elim (find_flow flow t.flows) [
      | none ↦ (not_found, t)
      | some f ↦
          start_job S
            (new_job (S.new_pk t.jobs) now u.pk none (some f.pk) f.source_path f.dest_path) t
    ]

-- `trigger_flow`
unfoldable pub trigger_flow : Server → ℕ → ℕ → Request → Tables → Reply × Tables
unfolding require_api_token trigger_flow_as
trigger_flow S now flow r t = require_api_token S now (trigger_flow_as S now flow) r t
