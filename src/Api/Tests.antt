-- ===== src/Api/Tests.antt =====
-- Runs of the API.
use tmask_tt.Base.{◌≡◌, ◌⊎◌, ◌≤◌, true, false, none, some, [], ◌∷◌}
use tmask_tt.Base.Text.{codes}
use tmask_tt.Accounts.{User, role_level, level_of, operator}
use tmask_tt.Worker.{ok}
use tmask_tt.Api.{Server, Tables, Request, object, text, get_user_from_token}
use tmask_tt.Api.Start.{trigger_connection}
use tmask_tt.Api.Triggers.{HasAdded, trigger_connection_adds}

abbrev server : Server
server = record { sha256 = λ key. "digest"; new_pk = λ jobs. 7; send_task = λ sent pk. ok "task" }

abbrev user : User
user = record {
  pk = 1;
  username = "ann";
  email = "";
  role = operator;
  notify_on_done = true;
  notify_on_failed = true;
  webhook_url = "";
  webhook_on_done = false;
  webhook_on_failed = false;
  telegram_chat_id = "";
  telegram_on_done = false;
  telegram_on_failed = false;
  totp_secret = "";
  totp_enabled = false;
  failed_login_attempts = 0;
  locked_until = none;
  webhook_failure_count = 0;
  webhook_circuit_open_until = none;
}

abbrev tables : Tables
tables = record {
  users = user ∷ [];
  tokens = record { pk = 1; user = 1; label = "ci"; key_hash = "digest"; last_used_at = none } ∷ [];
  connections = 3 ∷ [];
  flows = [];
  jobs = [];
  sent = [];
  db_jobs = [];
}

abbrev request : Request
request = record {
  authorization = codes "Token abc";
  status = "";
  body = object (text "/data/a") (text " /b ");
}

trigger_connection_adds_example :
    ((trigger_connection server 5 3 request tables).1.jobs ≡ [])
    ⊎ ((u : User) × ((get_user_from_token server 5 (codes "Token abc") tables).0 ≡ some u)
        × (level_of operator ≤ role_level u)
        × HasAdded u 3 [] (trigger_connection server 5 3 request tables).1.jobs)
trigger_connection_adds_example = trigger_connection_adds server 5 3 request tables
