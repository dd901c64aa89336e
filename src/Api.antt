-- ===== src/Api.antt =====
-- The REST API (services/web/apps/api/auth.py, models.py, views.py): its rows, requests and replies, and
-- the tokens. Start has the views that start transfers, Lists those that show them.
pub mod Start
pub mod Lists
pub mod Triggers
mod Tests
use tmask_tt.Base.{
  ℕ, String, ◌<>◌, Bool, true, false, ◌&&◌, ◌||◌, not, Option, none, some, List, [], ◌∷◌, map, ltb,
  ◌==◌, any, str_eq, take, truthy, if◌then◌else◌,
}
use tmask_tt.Base.Str.{strip, join}
use tmask_tt.Base.Text.{Text, codes, after_prefix}
use tmask_tt.Accounts.{User, role_level, find_user, level_of, operator}
use tmask_tt.Database.Task.{DbTransferJob}
use tmask_tt.Worker.{Result, ok, err, Exn, other_error}
use tmask_tt.Worker.Params.{none_if_empty}
use tmask_tt.Transfers.{Job, Status, pending, running, done, failed, cancelled}
use tmask_tt.Transfers.Paths.{validate_transfer_path}
use tmask_tt.Transfers.Runner.{Flow}
use tmask_tt.Transfers.Upkeep.{find_job}
use tmask_tt.Webhooks.Payload.{status_text}

-- `ApiToken`
pub record ApiToken : Type 0 where
  pub pk : ℕ
  pub user : ℕ
  pub label : String
  pub key_hash : String
  pub last_used_at : Option ℕ

-- A member of the object that a body holds: a text or another value.
pub data Member : Type 0 where
  missing : Member
  text : String → Member
  other : Member

-- What `json.loads` makes of a body; it raises `ValueError` where the body is no JSON.
pub data Body : Type 0 where
  no_json : Body
  no_object : Body
  object : (source_path destination_path : Member) → Body

-- A request: the header `Authorization`, `?status=` and the body.
pub record Request : Type 0 where
  pub authorization : Text
  pub status : String
  pub body : Body

-- The rows that the views read and write; the jobs in the order of a query, the newest first. `sent`
-- holds the jobs that a task was sent for, the last one first.
pub record Tables : Type 0 where
  pub users : List User
  pub tokens : List ApiToken
  pub connections : List ℕ
  pub flows : List Flow
  pub jobs : List Job
  pub sent : List ℕ
  pub db_jobs : List DbTransferJob

-- The SHA-256 of a key in hexadecimal digits, the key of a new row, and the name that a task gets when
-- it is sent, or what sending it raises.
pub record Server : Type 0 where
  pub sha256 : Text → String
  pub new_pk : List Job → ℕ
  pub send_task : List ℕ → ℕ → Result String

-- The dictionary of a job; `isoformat` writes its times.
pub record JobDict : Type 0 where
  pub job_id : ℕ
  pub status : String
  pub connection_id : Option ℕ
  pub flow_id : Option ℕ
  pub source_path : String
  pub destination_path : String
  pub created_at : String
  pub started_at : Option String
  pub finished_at : Option String
  pub error : Option String

-- The dictionary of a job between databases.
pub record DbJobDict : Type 0 where
  pub job_id : ℕ
  pub status : String
  pub engine : String
  pub source_connection_id : ℕ
  pub dest_connection_id : ℕ
  pub table_name : Option String
  pub created_at : String
  pub started_at : Option String
  pub finished_at : Option String
  pub error : Option String

pub data Reply : Type 0 where
  refused : (code : ℕ) (error : String) → Reply
  accepted : (job_id : ℕ) → Reply
  one_job : JobDict → Reply
  many_jobs : List JobDict → Reply
  one_db_job : DbJobDict → Reply
  many_db_jobs : List DbJobDict → Reply
  raised : Exn → Reply

abbrev pub not_found : Reply
not_found = refused 404 "Not found"

abbrev pub forbidden : Reply
forbidden = refused 403 "Operator or admin role required"

abbrev pub list_page_size : ℕ
list_page_size = 200

-- `ApiToken.objects.get(key_hash=…)` with the save of `last_used_at`: the user of the token, and the
-- rows. A hash is unique.
unfoldable pub use_token : String → ℕ → List ApiToken → Option ℕ × List ApiToken
use_token hash now [] = (none, [])
use_token hash now (t ∷ ts) =
    let (user, rest) = use_token hash now ts in
    if str_eq t.key_hash hash
    then (some t.user, record t { last_used_at = some now } ∷ ts)
    else (user, t ∷ rest)

abbrev user_of : List User → Option ℕ → Option User
user_of users none = none
user_of users (some pk) = find_user pk users

abbrev user_of_key : Server → ℕ → Tables → Option Text → Option User × Tables
unfolding use_token
user_of_key S now t none = (none, t)
user_of_key S now t (some raw_key) =
    let (user, tokens) = use_token (S.sha256 raw_key) now t.tokens in
    (user_of t.users user, record t { tokens = tokens })

-- `get_user_from_token`
unfoldable pub get_user_from_token : Server → ℕ → Text → Tables → Option User × Tables
unfolding user_of_key after_prefix
get_user_from_token S now header t = user_of_key S now t (after_prefix (codes "Token ") header)

-- `require_api_token` around a view.
unfoldable pub require_api_token :
    Server → ℕ → (User → Tables → Reply × Tables) → Request → Tables → Reply × Tables
unfolding get_user_from_token
require_api_token S now view r t =
    let (user, t') = get_user_from_token S now r.authorization t in
    elim user [ none ↦ (refused 403 "Invalid or missing token", t') | some u ↦ view u t' ]
