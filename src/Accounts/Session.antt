-- ===== src/Accounts/Session.antt =====
-- The session that a login fills, the recovery codes of the second factor
-- (services/web/apps/accounts/totp.py), and what Django and pyotp are asked.
use tmask_tt.Base.{
  ℕ, ◌+◌, String, Bool, ◌&&◌, not, Option, none, some, List, [], ◌∷◌, ◌++◌, ◌==◌, is_some, length,
  take, drop, if◌then◌else◌,
}
use tmask_tt.Base.Text.{Text, strip, replace_char, upper}
use tmask_tt.Accounts.{User}

-- The keys of `request.session` that the login views use; `logged_in` is the user that Django's
-- own keys name.
pub record Session : Type 0 where
  pub logged_in : Option ℕ
  pub pre_2fa_user_id : Option ℕ
  pub pre_2fa_attempts : Option ℕ
  pub pre_2fa_next : Option String

-- `TOTPRecoveryCode`
pub record RecoveryCode : Type 0 where
  pub user : ℕ
  pub code_hash : String
  pub used_at : Option ℕ

-- Django's and pyotp's functions that the views call.
pub record Platform : Type 0 where
  -- `authenticate(username, password)` over the table of users
  pub authenticate : List User → String → String → Option User
  -- `login(request, user)`
  pub login : Session → ℕ → Session
  -- `url_has_allowed_host_and_scheme`
  pub safe_url : String → Bool
  -- `pyotp.TOTP(secret).verify(code, valid_window=1)` at a time
  pub verify_totp : String → Text → ℕ → Bool
  -- `check_password(text, hash)`
  pub check_password : Text → String → Bool

-- `normalize_recovery_code`. Letters are upper-cased in ASCII, the alphabet of a code.
unfoldable pub normalize_recovery_code : Text → Text
unfolding strip replace_char upper
normalize_recovery_code raw =
    let stripped = replace_char b'-' [] (upper (strip raw)) in
    if length stripped == 8 then take 4 stripped ++ (b'-' ∷ drop 4 stripped) else stripped

module _ (P : Platform) where
  -- The loop of `check_recovery_code` over the rows of the table: the first unused code of the user
  -- that fits is marked as used at `now`.
  unfoldable pub use_code :
      ℕ → Text → ℕ → List RecoveryCode → Option RecoveryCode × List RecoveryCode
  use_code k code now [] = (none, [])
  use_code k code now (c ∷ codes) =
      let rest = use_code k code now codes in
      let used = record c { used_at = some now } in
      if c.user == k && not (is_some c.used_at) && P.check_password code c.code_hash
      then (some used, used ∷ codes)
      else (rest.0, c ∷ rest.1)

  unfoldable pub check_recovery_code :
      User → Text → ℕ → List RecoveryCode → Option RecoveryCode × List RecoveryCode
  unfolding use_code normalize_recovery_code
  check_recovery_code u raw now codes = use_code u.pk (normalize_recovery_code raw) now codes

-- `user.recovery_codes.filter(used_at__isnull=True).count()`
unfoldable pub unused_codes : ℕ → List RecoveryCode → ℕ
unused_codes k [] = 0
unused_codes k (c ∷ codes) =
    (if c.user == k && not (is_some c.used_at) then 1 else 0) + unused_codes k codes
