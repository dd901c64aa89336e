-- ===== src/Accounts/Login.antt =====
-- The views of a login with its second factor (services/web/apps/accounts/views.py, `login_view`,
-- `_complete_login`, `totp_verify` and their helpers). A view returns its answer, the table of users
-- and the session; the messages of the page are left out.
use tmask_tt.Base.{
  ℕ, ◌+◌, String, Bool, true, false, ◌&&◌, not, Option, none, some, List, ltb, is_some, truthy,
  if◌then◌else◌,
}
use tmask_tt.Base.Text.{Text}
use tmask_tt.Accounts.{User, find_by_name, find_user, save_user}
use tmask_tt.Accounts.Lockout.{is_locked_out, register_failed_login, register_successful_login}
use tmask_tt.Accounts.Session.{Session, Platform, RecoveryCode, check_recovery_code}

pub data Answer : Type 0 where
  -- `redirect(LOGIN_REDIRECT_URL)`, `redirect(url)`, `redirect(LOGIN_URL)`, the page of the code
  home : Answer
  to_url : String → Answer
  to_login : Answer
  to_2fa : Answer
  -- the form again: as it is, with LOCKOUT_MESSAGE, or with the message of a wrong password or code
  form : Answer
  form_locked : Answer
  form_rejected : Answer
  not_found : Answer
  key_error : Answer

pub record LoginRequest : Type 0 where
  pub is_post : Bool
  pub is_valid : Bool
  pub username : String
  pub password : String
  -- `request.GET.get('next', '')`
  pub next : String

-- MAX_PRE_2FA_ATTEMPTS
abbrev pub max_pre_2fa_attempts : ℕ
max_pre_2fa_attempts = 5

abbrev pub copy_lockout : User → User → User
copy_lockout u r = record r {
  failed_login_attempts = u.failed_login_attempts;
  locked_until = u.locked_until;
}

-- `user.save(update_fields=['failed_login_attempts', 'locked_until'])`
unfoldable pub save_lockout : User → List User → List User
unfolding save_user
save_lockout u users = save_user (copy_lockout u) u.pk users

abbrev or_home : String → Answer
or_home next = if truthy next then to_url next else home

-- `_register_2fa_failure`
unfoldable pub register_2fa_failure : Session → Answer × Session
register_2fa_failure s = elim s.pre_2fa_attempts [
  | none ↦ (key_error, s)
  | some n ↦
      if ltb (n + 1) max_pre_2fa_attempts
      then (form_rejected, record s { pre_2fa_attempts = some (n + 1) })
      else (
        to_login,
        record s { pre_2fa_user_id = none; pre_2fa_attempts = none; pre_2fa_next = none },
      )
]

abbrev pub is_locked_candidate : Option User → ℕ → Bool
unfolding is_locked_out
is_locked_candidate none now = false
is_locked_candidate (some c) now = is_locked_out c now

module _ (P : Platform) where
  unfoldable pub complete_login : LoginRequest → User → Session → Answer × Session
  complete_login req u s =
      let safe_next = if truthy req.next && P.safe_url req.next then req.next else "" in
      if u.totp_enabled
      then (
        to_2fa,
        record s {
          pre_2fa_user_id = some u.pk;
          pre_2fa_attempts = some 0;
          pre_2fa_next = if truthy safe_next then some safe_next else s.pre_2fa_next;
        },
      )
      else (or_home safe_next, P.login s u.pk)

  -- The password is compared: the rest of `login_view` behind the lockout.
  unfoldable pub check_login :
      LoginRequest → Option User → ℕ → List User → Session → Answer × List User × Session
  unfolding complete_login register_failed_login register_successful_login save_lockout
  check_login req candidate now users s = elim (P.authenticate users req.username req.password) [
    | some u ↦
        let (answer, s') = complete_login req u s in
        (answer, save_lockout (register_successful_login u) users, s')
    | none ↦ elim candidate [
      | some c ↦ (form_rejected, save_lockout (register_failed_login c now) users, s)
      | none ↦ (form_rejected, users, s)
    ]
  ]

  unfoldable pub login_view : LoginRequest → ℕ → List User → Session → Answer × List User × Session
  unfolding check_login find_by_name is_locked_out
  login_view req now users s =
      let candidate = find_by_name req.username users in
      if is_some s.logged_in
      then (home, users, s)
      else if not (req.is_post && req.is_valid)
      then (form, users, s)
      else if is_locked_candidate candidate now
      then (form_locked, users, s)
      else check_login req candidate now users s

  -- `_check_totp_or_recovery`
  unfoldable pub check_totp_or_recovery :
      User → Text → ℕ → List RecoveryCode → Bool × Option RecoveryCode × List RecoveryCode
  unfolding check_recovery_code
  check_totp_or_recovery u code now codes =
      let (found, codes') = check_recovery_code P u code now codes in
      if P.verify_totp u.totp_secret code now
      then (true, none, codes)
      else (is_some found, found, codes')

  -- `_finish_2fa_login`; `del` on a missing key raises.
  unfoldable pub finish_2fa_login : User → Session → Answer × Session
  finish_2fa_login u s =
      let cleared = record s {
        pre_2fa_next = none;
        pre_2fa_user_id = none;
        pre_2fa_attempts = none;
      } in
      if is_some s.pre_2fa_user_id && is_some s.pre_2fa_attempts
      then (elim s.pre_2fa_next [ none ↦ home | some next ↦ or_home next ], P.login cleared u.pk)
      else (key_error, s)

  -- A post of the code to `totp_verify`, for the user whom the session names.
  unfoldable pub post_code :
      User → Text → ℕ → List RecoveryCode → Session → Answer × List RecoveryCode × Session
  unfolding check_totp_or_recovery finish_2fa_login register_2fa_failure
  post_code u code now codes s =
      let (valid, _, codes') = check_totp_or_recovery u code now codes in
      let (answer, s') = if valid then finish_2fa_login u s else register_2fa_failure s in
      (answer, codes', s')

  -- `totp_verify`; `code` is what the form gives, if it was posted and is valid.
  unfoldable pub totp_verify :
      Option Text
      → ℕ
      → List User
      → List RecoveryCode
      → Session
      → Answer × List RecoveryCode × Session
  unfolding post_code find_user
  totp_verify code now users codes s = elim s.pre_2fa_user_id [
    | none ↦ (to_login, codes, s)
    | some k ↦ elim (find_user k users) [
      | none ↦ (not_found, codes, s)
      | some u ↦ elim code [ none ↦ (form, codes, s) | some c ↦ post_code u c now codes s ]
    ]
  ]
