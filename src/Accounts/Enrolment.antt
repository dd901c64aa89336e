-- ===== src/Accounts/Enrolment.antt =====
-- The second factor switched on and off (services/web/apps/accounts/totp.py, `generate_recovery_codes`;
-- accounts/views.py, `totp_setup`, `totp_recovery_codes`, `totp_disable`).
pub mod Codes
pub mod Enabled
use tmask_tt.Base.{
  ℕ, zero, suc, ◌+◌, String, Bool, true, false, ◌&&◌, Option, none, some, List, [], ◌∷◌, ◌++◌, ◌==◌,
  truthy, non_empty, take, drop, if◌then◌else◌,
}
use tmask_tt.Base.Text.{Text, upper}
use tmask_tt.Accounts.{User, save_user}
use tmask_tt.Accounts.Session.{Platform, RecoveryCode}

-- What the views draw and compute outside the program: `secrets.token_hex(4)`, the salted
-- `make_password` of a text, both by the number of the draw, `pyotp.random_base32()`, and
-- `user.check_password`.
pub record Source : Type 0 where
  pub token_hex : ℕ → Text
  pub make_password : ℕ → Text → String
  pub random_base32 : String
  pub password_fits : User → String → Bool

-- The rows and the keys of the session that these views use; the session belongs to the user who is
-- signed in.
pub record Enrolment : Type 0 where
  pub users : List User
  pub codes : List RecoveryCode
  pub pending_totp_secret : Option String
  pub new_recovery_codes : Option (List Text)

-- A request, with what the form gives where the post of it is valid.
pub data Form (A : Type 0) : Type 0 where
  get : Form A
  invalid : Form A
  posted : A → Form A

pub data Page : Type 0 where
  -- '2FA jest już włączone.'
  already_enabled : Page
  to_recovery_codes : Page
  to_profile : Page
  -- the page that shows a secret, and whether it says 'Nieprawidłowy kod.' or 'Sesja wygasła'
  setup_page : (secret : String) (wrong_code expired : Bool) → Page
  codes_page : List Text → Page
  -- '2FA wyłączone.' and its refusal
  switched_off : Page
  wrong_password : Page

-- RECOVERY_CODE_COUNT
abbrev pub recovery_code_count : ℕ
recovery_code_count = 10

-- `recovery_codes.all().delete()`
unfoldable pub delete_codes : ℕ → List RecoveryCode → List RecoveryCode
delete_codes k [] = []
delete_codes k (c ∷ codes) =
    let rest = delete_codes k codes in if c.user == k then rest else c ∷ rest

-- A code as it is shown: two groups of four characters.
unfoldable pub format_code : Text → Text
format_code raw = take 4 raw ++ (b'-' ∷ drop 4 raw)

-- `TOTPRecoveryCode.objects.create(user=…, code_hash=…)`
abbrev pub new_code : ℕ → String → RecoveryCode
new_code k hash = record { user = k; code_hash = hash; used_at = none }

abbrev pub enabled_with : String → User → User
enabled_with secret u = record u { totp_secret = secret; totp_enabled = true }

abbrev is_post : Form Text → Bool
is_post get = false
is_post invalid = true
is_post (posted code) = true

abbrev pub shown_codes : Option (List Text) → List Text
shown_codes none = []
shown_codes (some texts) = texts

-- `totp_recovery_codes`: the codes are shown once.
unfoldable pub totp_recovery_codes : Enrolment → Page × Enrolment
totp_recovery_codes s =
    let texts = shown_codes s.new_recovery_codes in
    (
      if non_empty texts then codes_page texts else to_profile,
      record s { new_recovery_codes = none },
    )

module _ (E : Source) where
  -- The code of a draw.
  unfoldable pub draw_code : ℕ → Text
  unfolding format_code upper
  draw_code i = format_code (upper (E.token_hex i))

  -- The loop: the texts and the rows of so many codes, from a draw on.
  unfoldable pub create_codes : ℕ → ℕ → ℕ → List Text × List RecoveryCode
  unfolding draw_code
  create_codes zero i k = ([], [])
  create_codes (suc left) i k =
      let (texts, rows) = create_codes left (i + 1) k in
      (draw_code i ∷ texts, new_code k (E.make_password i (draw_code i)) ∷ rows)

  -- `generate_recovery_codes`
  unfoldable pub generate_recovery_codes : ℕ → List RecoveryCode → List Text × List RecoveryCode
  unfolding create_codes delete_codes
  generate_recovery_codes k codes =
      let (texts, rows) = create_codes recovery_code_count 0 k in
      (texts, delete_codes k codes ++ rows)

  -- The right code was posted.
  unfoldable pub enable : String → User → Enrolment → Page × Enrolment
  unfolding generate_recovery_codes save_user
  enable secret u s =
      let (texts, codes) = generate_recovery_codes u.pk s.codes in
      (
        to_recovery_codes,
        record {
          users = save_user (enabled_with secret) u.pk s.users;
          codes = codes;
          pending_totp_secret = none;
          new_recovery_codes = some texts;
        },
      )

  -- A post while the session holds a secret.
  unfoldable pub post_setup :
      Platform → ℕ → Form Text → String → User → Enrolment → Page × Enrolment
  unfolding enable
  post_setup P now (posted code) secret u s =
      if P.verify_totp secret code now then enable secret u s else (setup_page secret true false, s)
  post_setup P now invalid secret u s = (setup_page secret true false, s)
  post_setup P now get secret u s = (setup_page secret false false, s)

  -- A new secret for the session.
  abbrev start_setup : Form Text → Enrolment → Page × Enrolment
  start_setup form s = (
    setup_page E.random_base32 false (is_post form),
    record s { pending_totp_secret = some E.random_base32 },
  )

  -- `totp_setup`, by the column of the user and the key of the session that it reads first.
  unfoldable pub setup_from :
      Platform → ℕ → Form Text → Bool → Option String → User → Enrolment → Page × Enrolment
  unfolding post_setup
  setup_from P now form true held u s = (already_enabled, s)
  setup_from P now form false none u s = start_setup form s
  setup_from P now form false (some secret) u s =
      if truthy secret then post_setup P now form secret u s else start_setup form s

  -- `totp_setup` of the user who is signed in.
  unfoldable pub totp_setup : Platform → ℕ → Form Text → User → Enrolment → Page × Enrolment
  unfolding setup_from
  totp_setup P now form u s = setup_from P now form u.totp_enabled s.pending_totp_secret u s

  -- `totp_disable`, which is for posts alone.
  unfoldable pub totp_disable : Form String → User → Enrolment → Page × Enrolment
  unfolding delete_codes save_user
  totp_disable (posted password) u s =
      if E.password_fits u password
      then (
        switched_off,
        record s {
          users = save_user (λ r. record r { totp_secret = ""; totp_enabled = false }) u.pk s.users;
          codes = delete_codes u.pk s.codes;
        },
      )
      else (wrong_password, s)
  totp_disable invalid u s = (wrong_password, s)
  totp_disable get u s = (wrong_password, s)
