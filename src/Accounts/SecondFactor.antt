-- ===== src/Accounts/SecondFactor.antt =====
-- The second factor over sequences of posts (services/web/apps/accounts/views.py, `totp_verify`;
-- services/web/apps/accounts/totp.py, `check_recovery_code`).
use mathlib.Core.List.{Memᴰ}
use tmask_tt.Base.{
  ◌⊎◌, ◌==◌, ◌&&◌, not, Bool-cases, ℕ, suc, ◌-◌, ◌≤◌, ◌≡◌, refl, sym, ◌∙◌, ap, ◌||◌, Bool, true,
  false, Option, none, some, List, [], ◌∷◌, arith, inl, inr, is_some, ltb, Option-cases,
  if◌then◌else◌,
}
use tmask_tt.Base.Text.{Text}
use tmask_tt.Accounts.{User, find_user}
use tmask_tt.Accounts.Session.{
  Session, Platform, RecoveryCode, normalize_recovery_code, use_code, check_recovery_code,
}
use tmask_tt.Accounts.Guessing.{count_if}
use tmask_tt.Accounts.Attempts.{IsPlatform}
use tmask_tt.Accounts.Login.{
  register_2fa_failure, finish_2fa_login, check_totp_or_recovery, post_code, totp_verify,
  max_pre_2fa_attempts, LoginRequest, complete_login,
}

-- What the session says of a login that waits for its code: nothing, or fewer than the allowed
-- number of codes have failed.
unfoldable pub is_waiting : Session → Bool
is_waiting s =
    if is_some s.pre_2fa_user_id
    then elim s.pre_2fa_attempts [ none ↦ false | some n ↦ ltb n max_pre_2fa_attempts ]
    else true

-- The codes that can still be compared.
unfoldable pub codes_left : Session → ℕ
codes_left s =
    if is_some s.pre_2fa_user_id
    then elim s.pre_2fa_attempts [ none ↦ 0 | some n ↦ max_pre_2fa_attempts - n ]
    else 0

-- A code is compared when the session names a user who exists.
unfoldable pub is_compared : Option Text → List User → Session → Bool
is_compared code users s = elim s.pre_2fa_user_id [
  | none ↦ false
  | some k ↦ elim (find_user k users) [ none ↦ false | some u ↦ is_some code ]
]

module _ (P : Platform) where
  -- Posts of codes at given times, and how many of the codes were compared.
  unfoldable pub compared : List User → List RecoveryCode → Session → List (Option Text × ℕ) → ℕ
  compared users codes s [] = 0
  compared users codes s ((code, t) ∷ posts) =
      let (answer, codes', s') = totp_verify P code t users codes s in
      count_if (is_compared code users s) (compared users codes' s' posts)

-- A compared code leaves a login that waits with one code less, or with none at all.
Spends : Session → Session → Type 0
Spends s s' = (is_waiting s' ≡ true) × (suc (codes_left s') ≤ codes_left s)

register_2fa_failure-Spends :
    (s : Session)
    → is_some s.pre_2fa_user_id ≡ true
    → is_waiting s ≡ true
    → Spends s (register_2fa_failure s).1
unfolding Spends register_2fa_failure is_waiting codes_left
register_2fa_failure-Spends s named h = ground arith

finish_2fa_login-Spends :
    (P : Platform) (u : User) (s : Session)
    → IsPlatform P
    → is_some s.pre_2fa_user_id ≡ true
    → is_waiting s ≡ true
    → Spends s (finish_2fa_login P u s).1
unfolding Spends finish_2fa_login is_waiting codes_left
finish_2fa_login-Spends P u s law named h =
    let cleared : Session = record s {
      pre_2fa_next = none;
      pre_2fa_user_id = none;
      pre_2fa_attempts = none;
    } in
    ground (arith, law.login_keys cleared u.pk refl)

post_code-Spends :
    (P : Platform) (u : User) (c : Text) (t : ℕ) (codes : List RecoveryCode) (s : Session)
    → IsPlatform P
    → is_some s.pre_2fa_user_id ≡ true
    → is_waiting s ≡ true
    → Spends s (post_code P u c t codes s).2
unfolding post_code
post_code-Spends P u c t codes s law named h =
    ground (arith, register_2fa_failure-Spends s named h, finish_2fa_login-Spends P u s law named h)

-- One post: it compares a code and leaves one less, or it compares none.
totp_verify-codes_left :
    (P : Platform) (code : Option Text) (t : ℕ) (users : List User) (codes : List RecoveryCode)
    (s : Session)
    → IsPlatform P
    → is_waiting s ≡ true
    → let s' = (totp_verify P code t users codes s).2 in
      (is_waiting s' ≡ true) × (count_if (is_compared code users s) (codes_left s') ≤ codes_left s)
unfolding totp_verify is_compared Spends
totp_verify-codes_left P none t users codes s law h = ground arith
totp_verify-codes_left P (some c) t users codes s law h = elim (Option-cases s.pre_2fa_user_id) [
  | inl nobody ↦ ground arith
  | inr (k, named) ↦ elim (Option-cases (find_user k users)) [
    | inl absent ↦ ground arith
    | inr (u, found) ↦ ground (arith, post_code-Spends P u c t codes s law (ap is_some named) h)
  ]
]

compared-le-codes_left :
    (P : Platform) (users : List User) (codes : List RecoveryCode) (s : Session)
    (posts : List (Option Text × ℕ))
    → IsPlatform P
    → is_waiting s ≡ true
    → compared P users codes s posts ≤ codes_left s
unfolding compared
compared-le-codes_left P users codes s [] law h = omega arith
compared-le-codes_left P users codes s ((code, t) ∷ posts) law h =
    let (answer, codes', s') = totp_verify P code t users codes s in
    let (h', spent) = totp_verify-codes_left P code t users codes s law h in
    ground (arith, compared-le-codes_left P users codes' s' posts law h', spent)

-- One right password buys at most five codes: however many codes are posted afterwards, right or
-- wrong, at most five of them are compared before a new login is asked for.
pub totp_verify_bound :
    (P : Platform) (users : List User) (codes : List RecoveryCode) (req : LoginRequest) (u : User)
    (s : Session) (posts : List (Option Text × ℕ))
    → IsPlatform P
    → u.totp_enabled ≡ true
    → compared P users codes (complete_login P req u s).1 posts ≤ max_pre_2fa_attempts
unfolding complete_login is_waiting codes_left
totp_verify_bound P users codes req u s posts law enabled =
    ground (arith, compared-le-codes_left P users codes (complete_login P req u s).1 posts law)

-- A password alone does not sign in where a second factor is set: the session names the user whose
-- code is awaited and keeps whoever was signed in.
pub complete_login_waits :
    (P : Platform) (req : LoginRequest) (u : User) (s : Session)
    → u.totp_enabled ≡ true
    → ((complete_login P req u s).1.pre_2fa_user_id ≡ some u.pk)
      × ((complete_login P req u s).1.logged_in ≡ s.logged_in)
unfolding complete_login
complete_login_waits P req u s enabled = ground arith

find_user-pk : (k : ℕ) (users : List User) (u : User) → find_user k users ≡ some u → u.pk ≡ k
unfolding find_user
find_user-pk k [] u h = ground arith
find_user-pk k (v ∷ users) u h = ground (arith, find_user-pk k users u)

register_2fa_failure-logged_in : (s : Session) → (register_2fa_failure s).1.logged_in ≡ s.logged_in
unfolding register_2fa_failure
register_2fa_failure-logged_in s = ground arith

post_code_signs_in :
    (P : Platform) (u : User) (c : Text) (t : ℕ) (codes : List RecoveryCode) (s : Session) (k : ℕ)
    → IsPlatform P
    → s.logged_in ≡ none
    → (post_code P u c t codes s).2.logged_in ≡ some k
    → ((P.verify_totp u.totp_secret c t || is_some (check_recovery_code P u c t codes).0) ≡ true)
      × (u.pk ≡ k)
unfolding post_code
post_code_signs_in P u c t codes s k law anonymous signed =
    let cleared : Session = record s {
      pre_2fa_next = none;
      pre_2fa_user_id = none;
      pre_2fa_attempts = none;
    } in
    ground (arith, register_2fa_failure-logged_in s, law.login_user cleared u.pk)

-- A code that is right for a user at a time: the current one of the user's secret, or one that fits the hash
-- of a recovery code of the user that is among the rows and was never used.
abbrev pub IsRight : Platform → User → Text → ℕ → List RecoveryCode → Type 0
IsRight P u c t codes =
    (P.verify_totp u.totp_secret c t ≡ true)
    ⊎ ((r : RecoveryCode) × Memᴰ r codes
        × (r.user ≡ u.pk)
        × (r.used_at ≡ none)
        × (P.check_password (normalize_recovery_code c) r.code_hash ≡ true))

use_code_found :
    (P : Platform) (k : ℕ) (code : Text) (t : ℕ) (codes : List RecoveryCode)
    → is_some (use_code P k code t codes).0 ≡ true
    → (r : RecoveryCode) × Memᴰ r codes
      × (r.user ≡ k)
      × (r.used_at ≡ none)
      × (P.check_password code r.code_hash ≡ true)
unfolding use_code
use_code_found P k code t [] h = absurd (ground arith)
use_code_found P k code t (c ∷ codes) h =
    elim (Bool-cases
      (c.user == k && not (is_some c.used_at) && P.check_password code c.code_hash)) [
        | inl fits ↦ elim (Option-cases c.used_at) [
          | inl unused ↦ (c, Memᴰ.head refl, ground arith, unused, ground arith)
          | inr (at, used) ↦ absurd (ground arith)
        ]
        | inr other ↦
            let (r, member, own, unused, right) = use_code_found P k code t codes (rw other at h) in
            (r, Memᴰ.tail member, own, unused, right)
      ]

check-IsRight :
    (P : Platform) (u : User) (c : Text) (t : ℕ) (codes : List RecoveryCode)
    → (P.verify_totp u.totp_secret c t || is_some (check_recovery_code P u c t codes).0) ≡ true
    → IsRight P u c t codes
unfolding check_recovery_code
check-IsRight P u c t codes h = elim (Bool-cases (P.verify_totp u.totp_secret c t)) [
  | inl current ↦ inl current
  | inr other ↦ inr (use_code_found P u.pk (normalize_recovery_code c) t codes (rw other at h))
]

-- A post of a code signs in only the user whom the session names, and only where the code is right: the
-- current one of that user, or one that fits a recovery code of that user that was never used.
pub totp_verify_signs_in :
    (P : Platform) (code : Option Text) (t : ℕ) (users : List User) (codes : List RecoveryCode)
    (s : Session) (k : ℕ)
    → IsPlatform P
    → s.logged_in ≡ none
    → (totp_verify P code t users codes s).2.logged_in ≡ some k
    → (u : User) × (c : Text) × (code ≡ some c)
      × (find_user k users ≡ some u)
      × (s.pre_2fa_user_id ≡ some k)
      × IsRight P u c t codes
unfolding totp_verify
totp_verify_signs_in P none t users codes s k law anonymous signed = absurd (ground arith)
totp_verify_signs_in P (some c) t users codes s k law anonymous signed =
    elim (Option-cases s.pre_2fa_user_id) [
      | inl nobody ↦ absurd (ground arith)
      | inr (j, named) ↦ elim (Option-cases (find_user j users)) [
        | inl absent ↦ absurd (ground arith)
        | inr (u, found) ↦
            let posted : (post_code P u c t codes s).2.logged_in ≡ some k = ground arith in
            let (right, key) = post_code_signs_in P u c t codes s k law anonymous posted in
            let same : j ≡ k = sym (find_user-pk j users u found) ∙ key in
            (
              u,
              c,
              refl,
              rw (← same) found,
              rw named (ap some same),
              check-IsRight P u c t codes right,
            )
      ]
    ]

post_code_admits :
    (P : Platform) (u : User) (c : Text) (t : ℕ) (codes : List RecoveryCode) (s : Session)
    → IsPlatform P
    → is_some s.pre_2fa_user_id ≡ true
    → is_some s.pre_2fa_attempts ≡ true
    → (P.verify_totp u.totp_secret c t || is_some (check_recovery_code P u c t codes).0) ≡ true
    → (post_code P u c t codes s).2.logged_in ≡ some u.pk
unfolding post_code check_totp_or_recovery finish_2fa_login
post_code_admits P u c t codes s law named counted right =
    let cleared : Session = record s {
      pre_2fa_next = none;
      pre_2fa_user_id = none;
      pre_2fa_attempts = none;
    } in
    ground (arith, law.login_user cleared u.pk)

-- The right code, current or unused recovery code, of the user whom the session names signs that
-- user in.
pub totp_verify_admits :
    (P : Platform) (c : Text) (t : ℕ) (users : List User) (codes : List RecoveryCode) (s : Session)
    (u : User) (n : ℕ)
    → IsPlatform P
    → find_user u.pk users ≡ some u
    → s.pre_2fa_user_id ≡ some u.pk
    → s.pre_2fa_attempts ≡ some n
    → (P.verify_totp u.totp_secret c t || is_some (check_recovery_code P u c t codes).0) ≡ true
    → (totp_verify P (some c) t users codes s).2.logged_in ≡ some u.pk
unfolding totp_verify
totp_verify_admits P c t users codes s u n law found named counted right =
    rw (named, found, totp_verify)
      (post_code_admits P u c t codes s law (ap is_some named) (ap is_some counted) right)
