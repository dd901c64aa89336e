-- ===== src/Accounts/Tests.antt =====
-- The login views and the change of roles on concrete users.
use tmask_tt.Base.{
  ℕ, ◌≡◌, ◌≤◌, refl, String, Bool, true, false, Option, none, some, List, [], ◌∷◌, arith, str_eq,
  length, ◌*◌, ◌+◌, ◌-◌, ◌==◌,
}
use tmask_tt.Base.Text.{Text}
use tmask_tt.Accounts.{Role, admin, operator, User, find_by_name, find_user}
use tmask_tt.Accounts.Lockout.{is_locked_out, lock_time}
use tmask_tt.Accounts.Roles.{change_user_role}
use tmask_tt.Accounts.Roles.LastAdmin.{
  admins, Wrote, change_user_role_keeps_admin, change_user_role-Wrote,
}
use tmask_tt.Accounts.Session.{Session, Platform, RecoveryCode}
use tmask_tt.Accounts.Login.{
  LoginRequest, login_view, complete_login, totp_verify, is_locked_candidate, max_pre_2fa_attempts,
}
use tmask_tt.Accounts.Attempts.{IsPlatform, tries, login_view_guess_bound, login_view_signs_in}
use tmask_tt.Accounts.SecondFactor.{compared, IsRight, totp_verify_bound, totp_verify_signs_in}
use tmask_tt.Accounts.Enrolment as Enrol
use tmask_tt.Accounts.Enrolment.{
  Source, Enrolment, Form, to_recovery_codes, totp_setup, recovery_code_count, format_code,
  draw_code, create_codes, generate_recovery_codes, enable, post_setup, setup_from,
}
use tmask_tt.Accounts.Enrolment.Codes.{IsSource}
use tmask_tt.Accounts.Enrolment.Enabled.{totp_setup_lets_in}

abbrev pub user : ℕ → String → Role → Bool → User
user pk name role second = record {
  pk = pk;
  username = name;
  email = "";
  role = role;
  notify_on_done = false;
  notify_on_failed = true;
  webhook_url = "";
  webhook_on_done = false;
  webhook_on_failed = true;
  telegram_chat_id = "";
  telegram_on_done = false;
  telegram_on_failed = true;
  totp_secret = if_second second;
  totp_enabled = second;
  failed_login_attempts = 0;
  locked_until = none;
  webhook_failure_count = 0;
  webhook_circuit_open_until = none;
}
  where
    if_second : Bool → String
    if_second true = "JBSW"
    if_second false = ""

abbrev pub ann : User
ann = user 1 "ann" admin false

abbrev pub bob : User
bob = user 2 "bob" operator true

abbrev team : List User
team = ann ∷ bob ∷ []

-- Every user has the password "open".
abbrev by_password : List User → String → String → Option User
unfolding find_by_name
by_password users name password = if_open (str_eq password "open")
  where
    if_open : Bool → Option User
    if_open true = find_by_name name users
    if_open false = none

abbrev platform : Platform
platform = record {
  authenticate = by_password;
  login = λ s k. record s { logged_in = some k };
  safe_url = λ url. false;
  verify_totp = λ secret code now. length code == 6;
  check_password = λ code hash. true;
}

IsPlatform-platform : IsPlatform platform
IsPlatform-platform = record { login_user = λ s k. refl; login_keys = λ s k h. h }

abbrev anonymous : Session
anonymous = record {
  logged_in = none;
  pre_2fa_user_id = none;
  pre_2fa_attempts = none;
  pre_2fa_next = none;
}

abbrev waiting : Session
waiting = record anonymous { pre_2fa_user_id = some 2; pre_2fa_attempts = some 0 }

abbrev six : Text
six = 49 ∷ 50 ∷ 51 ∷ 52 ∷ 53 ∷ 54 ∷ []

abbrev codes : List RecoveryCode
codes = record { user = 2; code_hash = "x"; used_at = none } ∷ []

abbrev posted : String → String → LoginRequest
posted name password = record {
  is_post = true;
  is_valid = true;
  username = name;
  password = password;
  next = "";
}

change_user_role_keeps_admin_example : 1 ≤ admins (change_user_role 1 "operator" team).1
unfolding admins find_user
change_user_role_keeps_admin_example =
    change_user_role_keeps_admin 1 "operator" team (refl, (refl, tt)) (omega arith)

change_user_role-Wrote_example : Wrote 2 1 "admin" team (change_user_role 2 "admin" team)
change_user_role-Wrote_example = change_user_role-Wrote 2 1 "admin" team

login_view_guess_bound_example :
    tries platform "ann" team anonymous (("a", 1) ∷ ("b", 2) ∷ []) * lock_time
    ≤ 2 - 1 + 5 * lock_time
unfolding find_by_name
login_view_guess_bound_example =
    login_view_guess_bound platform "ann" (("a", 1) ∷ ("b", 2) ∷ []) team anonymous ann 1 2 refl
      refl (λ users. refl, (λ users. refl, tt)) (omega arith, (omega arith, omega arith))

login_view_signs_in_example :
    (u : User) × (some ann ≡ some u)
    × (u.totp_enabled ≡ false)
    × (u.pk ≡ 1)
    × (is_locked_candidate (find_by_name "ann" team) 7 ≡ false)
unfolding login_view find_by_name is_locked_out
login_view_signs_in_example =
    login_view_signs_in platform (posted "ann" "open") 7 team anonymous 1 IsPlatform-platform refl
      refl

totp_verify_bound_example :
    compared platform team codes
      (complete_login platform (posted "bob" "open") bob anonymous).1
      ((some six, 3) ∷ [])
    ≤ max_pre_2fa_attempts
totp_verify_bound_example =
    totp_verify_bound platform team codes (posted "bob" "open") bob anonymous ((some six, 3) ∷ [])
      IsPlatform-platform refl

totp_verify_signs_in_example :
    (u : User) × (c : Text) × (some six ≡ some c)
    × (find_user 2 team ≡ some u)
    × (waiting.pre_2fa_user_id ≡ some 2)
    × IsRight platform u c 3 codes
unfolding totp_verify
totp_verify_signs_in_example =
    totp_verify_signs_in platform (some six) 3 team codes waiting 2 IsPlatform-platform refl refl

abbrev source : Source
source = record {
  token_hex = λ i. b'a' ∷ b'b' ∷ b'c' ∷ b'd' ∷ b'0' ∷ b'1' ∷ b'2' ∷ b'3' ∷ [];
  make_password = λ i text. "hash";
  random_base32 = "JBSW";
  password_fits = λ u password. true;
}

IsSource-source : IsSource source platform
IsSource-source = record { eight = λ i. refl; digits = λ i. refl; check_made = λ i t. refl }

abbrev scanned : Enrolment
scanned = record {
  users = team;
  codes = [];
  pending_totp_secret = some "JBSW";
  new_recovery_codes = none;
}

abbrev shown_code : Text
shown_code = b'A' ∷ b'B' ∷ b'C' ∷ b'D' ∷ b'-' ∷ b'0' ∷ b'1' ∷ b'2' ∷ b'3' ∷ []

abbrev waiting_ann : Session
waiting_ann = record waiting { pre_2fa_user_id = some 1 }

totp_setup_lets_in_example :
    (totp_verify platform
      (some shown_code)
      9
      (totp_setup source platform 3 (Enrol.posted six) ann scanned).1.users
      (totp_setup source platform 3 (Enrol.posted six) ann scanned).1.codes
      waiting_ann).2.logged_in
    ≡ some 1
unfolding totp_setup setup_from post_setup enable generate_recovery_codes create_codes draw_code
    format_code find_user
totp_setup_lets_in_example =
    totp_setup_lets_in source platform 3 ann scanned (Enrol.posted six) 9 0 0 shown_code waiting_ann
      IsPlatform-platform IsSource-source refl refl refl refl refl
