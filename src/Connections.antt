-- ===== src/Connections.antt =====
-- The row of a connection (services/web/apps/connections/models.py).
pub mod Testers
pub mod Health
pub mod Alerts
pub mod Alternation
pub mod Portability
pub mod Transported
pub mod Browse
pub mod Managed
pub mod Tables
pub mod Actions
mod Tests
use tmask_tt.Base.{
  ℕ, String, Bool, true, false, ◌&&◌, not, Option, none, some, truthy, if◌then◌else◌,
}
use tmask_tt.Database.Task.{Kind, ssh, database}

-- The choices of `health_status`.
pub data HealthStatus : Type 0 where
  unknown healthy unhealthy : HealthStatus

pub record Connection : Type 0 where
  pub pk : ℕ
  pub owner : ℕ
  pub name : String
  pub host : String
  pub port : ℕ
  pub username : String
  pub password : String
  pub ssh_key : String
  pub ssh_key_passphrase : String
  pub strict_host_key_checking : Bool
  pub known_host_key : String
  pub kind : Kind
  pub db_name : String
  pub health_status : HealthStatus
  pub health_checked_at : Option ℕ
  pub health_error : String

-- `kind in KIND_DB_KINDS`
abbrev pub is_database : Kind → Bool
is_database ssh = false
is_database (database engine) = true

-- `Connection.clean`: the message of its `ValidationError`.
unfoldable pub clean : Connection → Option String
clean c =
    if is_database c.kind && not (truthy c.db_name)
    then some "DB NAME jest wymagane dla połączeń bazodanowych (Postgres/MySQL/MSSQL)."
    else none
