-- ===== src/Accounts.antt =====
-- The user model (services/web/apps/accounts/models.py), the table of users and the views that
-- change it. A date and time is a number of microseconds.
pub mod Lockout
pub mod Guessing
pub mod Roles
pub mod Session
pub mod Login
pub mod Attempts
pub mod SecondFactor
pub mod Recovery
pub mod Enrolment
pub mod Tests
use tmask_tt.Base.{
  ℕ, String, Bool, true, false, Option, none, some, List, [], ◌∷◌, ◌*◌, leb, ◌≡◌, ◌==◌, str_eq,
  if◌then◌else◌,
}

-- ROLE_ADMIN, ROLE_OPERATOR, ROLE_READONLY
pub data Role : Type 0 where
  admin operator readonly : Role

-- ROLE_LEVEL
abbrev pub level_of : Role → ℕ
level_of readonly = 0
level_of operator = 1
level_of admin = 2

-- `User`, with the inherited `id` and `username`. The two counters are PositiveSmallIntegerField columns, of
-- which PostgreSQL refuses a value above 32767; here they have no bound, so the model is that of counters
-- that stay below it.
pub record User : Type 0 where
  pub pk : ℕ
  pub username : String
  pub email : String
  pub role : Role
  pub notify_on_done : Bool
  pub notify_on_failed : Bool
  pub webhook_url : String
  pub webhook_on_done : Bool
  pub webhook_on_failed : Bool
  pub telegram_chat_id : String
  pub telegram_on_done : Bool
  pub telegram_on_failed : Bool
  pub totp_secret : String
  pub totp_enabled : Bool
  pub failed_login_attempts : ℕ
  pub locked_until : Option ℕ
  pub webhook_failure_count : ℕ
  pub webhook_circuit_open_until : Option ℕ

-- `User.role_level`
abbrev pub role_level : User → ℕ
role_level u = level_of u.role

-- `User.is_admin`
abbrev pub is_admin_role : Role → Bool
is_admin_role admin = true
is_admin_role operator = false
is_admin_role readonly = false

abbrev pub is_admin : User → Bool
is_admin u = is_admin_role u.role

-- `User.can_operate`
abbrev pub can_operate : User → Bool
can_operate u = leb (level_of operator) (role_level u)

-- `timedelta(minutes=n)`
abbrev pub minutes : ℕ → ℕ
minutes n = n * 60_000_000

-- `objects.filter(username=…).first()`
unfoldable pub find_by_name : String → List User → Option User
find_by_name name [] = none
find_by_name name (u ∷ users) = if str_eq u.username name then some u else find_by_name name users

-- `objects.get(pk=…)`
unfoldable pub find_user : ℕ → List User → Option User
find_user k [] = none
find_user k (u ∷ users) = if u.pk == k then some u else find_user k users

-- `save(update_fields=…)`: the row of the user gets the fields that `write` gives it.
unfoldable pub save_user : (User → User) → ℕ → List User → List User
save_user write k [] = []
save_user write k (u ∷ users) = (if u.pk == k then write u else u) ∷ save_user write k users

-- A table with one row for each primary key.
abbrev pub IsKeyed : List User → Type 0
IsKeyed [] = Unit
IsKeyed (u ∷ users) = (find_user u.pk users ≡ none) × IsKeyed users
