-- ===== src/Accounts/Lockout.antt =====
-- The lockout of an account after failed passwords
-- (services/web/apps/accounts/views.py, `_is_locked_out` to `_register_successful_login`).
use tmask_tt.Base.{
  ℕ, ◌+◌, Bool, false, ◌||◌, not, Option, none, some, ltb, leb, ◌==◌, is_some, if◌then◌else◌,
}
use tmask_tt.Accounts.{User, minutes}

-- LOGIN_LOCKOUT_THRESHOLD and LOGIN_LOCKOUT_MINUTES
abbrev pub lockout_threshold : ℕ
lockout_threshold = 5

abbrev pub lockout_minutes : ℕ
lockout_minutes = 15

abbrev pub lock_time : ℕ
lock_time = minutes lockout_minutes

-- `t and t > now`
abbrev pub is_later : Option ℕ → ℕ → Bool
is_later none now = false
is_later (some t) now = ltb now t

unfoldable pub is_locked_out : User → ℕ → Bool
is_locked_out u now = is_later u.locked_until now

unfoldable pub register_failed_login : User → ℕ → User
register_failed_login u now =
    let n = u.failed_login_attempts + 1 in
    record u {
      failed_login_attempts = n;
      locked_until = if leb lockout_threshold n then some (now + lock_time) else u.locked_until;
    }

unfoldable pub register_successful_login : User → User
register_successful_login u =
    if not (u.failed_login_attempts == 0) || is_some u.locked_until
    then record u { failed_login_attempts = 0; locked_until = none }
    else u
