-- ===== src/Accounts/Enrolment/Enabled.antt =====
-- What switching the second factor on does (services/web/apps/accounts/views.py, `totp_setup`), and that
-- it leaves its user a way in.
use tmask_tt.Base.{
  ℕ, ◌≡◌, refl, inl, inr, String, Bool, true, false, Option, none, some, arith, ◌==◌, Bool-cases,
  truthy, get_elem?, if◌then◌else◌,
}
use tmask_tt.Base.Text.{Text}
use tmask_tt.Accounts.{User, find_user, save_user}
use tmask_tt.Accounts.Roles.LastAdmin.{find_user-save_user}
use tmask_tt.Accounts.Session.{Session, Platform, unused_codes}
use tmask_tt.Accounts.Login.{totp_verify}
use tmask_tt.Accounts.Attempts.{IsPlatform}
use tmask_tt.Accounts.SecondFactor.{totp_verify_admits}
use tmask_tt.Accounts.Enrolment.{
  Source, Enrolment, Form, get, invalid, posted, Page, to_recovery_codes, enabled_with, enable,
  post_setup, setup_from, totp_setup, shown_codes,
}
use tmask_tt.Accounts.Enrolment.Codes.{IsSource, check-generate, unused_codes-generate}

-- The view wrote nothing of the users and their codes, or it had the right code for the secret that the
-- session holds: then the user has that secret, ten unused codes, and nobody else's change.
pub data SetUp (P : Platform) (now j : ℕ) (form : Form Text) (u : User) (s s' : Enrolment)
    : Type 0 where
  untouched : s'.users ≡ s.users → s'.codes ≡ s.codes → SetUp P now j form u s s'
  proved :
      (code : Text) (secret : String)
      → form ≡ posted code
      → s.pending_totp_secret ≡ some secret
      → P.verify_totp secret code now ≡ true
      → s'.users ≡ save_user (enabled_with secret) u.pk s.users
      → unused_codes j s'.codes ≡ (if u.pk == j then 10 else unused_codes j s.codes)
      → SetUp P now j form u s s'

module _ (E : Source) (P : Platform) (now j : ℕ) (u : User) (s : Enrolment) where
  post_setup-SetUp :
      (form : Form Text) (secret : String)
      → s.pending_totp_secret ≡ some secret
      → SetUp P now j form u s (post_setup E P now form secret u s).1
  unfolding post_setup enable
  post_setup-SetUp get secret held = untouched refl refl
  post_setup-SetUp invalid secret held = untouched refl refl
  post_setup-SetUp (posted code) secret held = elim (Bool-cases (P.verify_totp secret code now)) [
    | inl right ↦
        rw right (proved code secret refl held right refl (unused_codes-generate E j u.pk s.codes))
    | inr wrong ↦ rw wrong (untouched refl refl)
  ]

  setup_from-SetUp :
      (form : Form Text) (already : Bool) (held : Option String)
      → s.pending_totp_secret ≡ held
      → SetUp P now j form u s (setup_from E P now form already held u s).1
  unfolding setup_from
  setup_from-SetUp form true held h = untouched refl refl
  setup_from-SetUp form false none h = untouched refl refl
  setup_from-SetUp form false (some secret) h = elim (Bool-cases (truthy secret)) [
    | inl given ↦ rw given (post_setup-SetUp form secret h)
    | inr blank ↦ rw blank (untouched refl refl)
  ]

  -- The second factor is switched on only for a code that is right for the secret of the session; then the
  -- user has that secret, ten unused codes, and every other user's rows are as they were. Where the view
  -- does not switch it on it writes neither the users nor their codes.
  pub totp_setup-SetUp : (form : Form Text) → SetUp P now j form u s (totp_setup E P now form u s).1
  unfolding totp_setup
  totp_setup-SetUp form = setup_from-SetUp form u.totp_enabled s.pending_totp_secret refl

module _ (E : Source) (P : Platform) (now : ℕ) (u : User) (s : Enrolment) where
  -- What an answer that sends the user to the codes has done.
  abbrev SwitchedOn : Page × Enrolment → Type 0
  SwitchedOn r = (secret : String) × (r.1 ≡ (enable E secret u s).1)

  post_setup-SwitchedOn :
      (form : Form Text) (secret : String)
      → (post_setup E P now form secret u s).0 ≡ to_recovery_codes
      → SwitchedOn (post_setup E P now form secret u s)
  unfolding post_setup
  post_setup-SwitchedOn get secret h = cc
  post_setup-SwitchedOn invalid secret h = cc
  post_setup-SwitchedOn (posted code) secret h = (secret, ground arith)

  setup_from-SwitchedOn :
      (form : Form Text) (already : Bool) (held : Option String)
      → (setup_from E P now form already held u s).0 ≡ to_recovery_codes
      → SwitchedOn (setup_from E P now form already held u s)
  unfolding setup_from
  setup_from-SwitchedOn form true held h = cc
  setup_from-SwitchedOn form false none h = cc
  setup_from-SwitchedOn form false (some secret) h = elim (Bool-cases (truthy secret)) [
    | inl given ↦ rw given (post_setup-SwitchedOn form secret (rw given at h))
    | inr blank ↦ cc
  ]

  totp_setup-SwitchedOn :
      (form : Form Text)
      → (totp_setup E P now form u s).0 ≡ to_recovery_codes
      → SwitchedOn (totp_setup E P now form u s)
  unfolding totp_setup
  totp_setup-SwitchedOn form h = setup_from-SwitchedOn form u.totp_enabled s.pending_totp_secret h

  enable_lets_in :
      (secret : String) (later n m : ℕ) (code : Text) (waiting : Session)
      → IsPlatform P
      → IsSource E P
      → find_user u.pk s.users ≡ some u
      → get_elem? (shown_codes (enable E secret u s).1.new_recovery_codes) n ≡ some code
      → waiting.pre_2fa_user_id ≡ some u.pk
      → waiting.pre_2fa_attempts ≡ some m
      → (totp_verify P
          (some code)
          later
          (enable E secret u s).1.users
          (enable E secret u s).1.codes
          waiting).2.logged_in
        ≡ some u.pk
  unfolding enable
  enable_lets_in secret later n m code waiting law drawn found shown named counted =
      let u' = enabled_with secret u in
      let taken = check-generate E P drawn u' later n code s.codes shown in
      totp_verify_admits P code later _ _ waiting u' m law
        (ground
          (arith, found, find_user-save_user (enabled_with secret) u.pk u.pk s.users (λ r. refl)))
        named counted (ground (arith, taken))

  -- Whoever has switched the second factor on can sign in with each of the codes that are shown then: at
  -- any later time, with the users and codes as the view left them, the session of a login that waits for
  -- the code of that user is signed in by it.
  pub totp_setup_lets_in :
      (form : Form Text) (later n m : ℕ) (code : Text) (waiting : Session)
      → IsPlatform P
      → IsSource E P
      → find_user u.pk s.users ≡ some u
      → (totp_setup E P now form u s).0 ≡ to_recovery_codes
      → get_elem? (shown_codes (totp_setup E P now form u s).1.new_recovery_codes) n ≡ some code
      → waiting.pre_2fa_user_id ≡ some u.pk
      → waiting.pre_2fa_attempts ≡ some m
      → (totp_verify P
          (some code)
          later
          (totp_setup E P now form u s).1.users
          (totp_setup E P now form u s).1.codes
          waiting).2.logged_in
        ≡ some u.pk
  totp_setup_lets_in form later n m code waiting law drawn found done shown named counted =
      let (secret, e) = totp_setup-SwitchedOn form done in
      rw e
        (enable_lets_in secret later n m code waiting law drawn found (rw e at shown) named counted)
