-- ===== src/Accounts/Attempts.antt =====
-- The login views over sequences of requests: how often a password and a code can be tried, and
-- what a sign-in takes.
use tmask_tt.Base.{
  ℕ, ◌+◌, ◌-◌, ◌*◌, ◌≤◌, ◌≡◌, refl, ap, String, Bool, true, false, ◌&&◌, none, some, List, [], ◌∷◌,
  map, arith, inl, inr, Option-cases,
}
use tmask_tt.Accounts.{User, find_by_name}
use tmask_tt.Accounts.Lockout.{register_failed_login, lock_time}
use tmask_tt.Accounts.Guessing.{guess, guesses, count_if, IsRising, guesses_bound}
use tmask_tt.Accounts.Session.{Session, Platform}
use tmask_tt.Accounts.Login.{
  Answer, form_rejected, LoginRequest, copy_lockout, save_lockout, login_view, is_locked_candidate,
}

-- What Django documents of `login`: the session names the user then, and it gets no other keys.
pub record IsPlatform (P : Platform) : Type 0 where
  pub login_user : (s : Session) (k : ℕ) → (P.login s k).logged_in ≡ some k
  pub login_keys :
      (s : Session) (k : ℕ) → s.pre_2fa_user_id ≡ none → (P.login s k).pre_2fa_user_id ≡ none

-- The post of a password for one user name.
abbrev pub post_of : String → String → LoginRequest
post_of name password = record {
  is_post = true;
  is_valid = true;
  username = name;
  password = password;
  next = "";
}

abbrev pub is_rejected : Answer → Bool
is_rejected form_rejected = true
is_rejected _ = false

module _ (P : Platform) (name : String) where
  -- How many of the passwords were compared: the others met the lockout.
  unfoldable pub tries : List User → Session → List (String × ℕ) → ℕ
  tries users s [] = 0
  tries users s ((password, t) ∷ posts) =
      let (answer, users', s') = login_view P (post_of name password) t users s in
      count_if (is_rejected answer) (tries users' s' posts)

abbrev pub times : List (String × ℕ) → List ℕ
times = map (λ (password, t). t)

find_by_name-save_lockout :
    (name : String) (users : List User) (u u' : User)
    → find_by_name name users ≡ some u
    → copy_lockout u' u ≡ u'
    → u'.pk ≡ u.pk
    → find_by_name name (save_lockout u' users) ≡ some u'
unfolding find_by_name save_lockout
find_by_name-save_lockout name [] u u' found same key = cc
find_by_name-save_lockout name (v ∷ users) u u' found same key =
    ground (arith, find_by_name-save_lockout name users u u')

register_failed_login-copy :
    (u : User) (t : ℕ) → copy_lockout (register_failed_login u t) u ≡ register_failed_login u t
unfolding register_failed_login
register_failed_login-copy u t = refl

register_failed_login-pk : (u : User) (t : ℕ) → (register_failed_login u t).pk ≡ u.pk
unfolding register_failed_login
register_failed_login-pk u t = refl

-- A rejected password, seen from `login_view`: one step of `guess` on the user's row.
login_view-guess :
    (P : Platform) (name password : String) (t : ℕ) (users : List User) (s : Session) (u : User)
    → s.logged_in ≡ none
    → find_by_name name users ≡ some u
    → P.authenticate users name password ≡ none
    → let (answer, users', s') = login_view P (post_of name password) t users s in
      (is_rejected answer ≡ (guess u t).1)
      × (find_by_name name users' ≡ some (guess u t).0)
      × (s' ≡ s)
unfolding login_view guess
login_view-guess P name password t users s u anonymous found wrong = ground (
  arith,
  find_by_name-save_lockout name users u (register_failed_login u t) found
      (register_failed_login-copy u t) (register_failed_login-pk u t),
)

-- Every password of the posts is wrong, whatever the table holds by then.
abbrev pub AllWrong : Platform → String → List (String × ℕ) → Type 0
AllWrong P name [] = Unit
AllWrong P name ((password, t) ∷ posts) =
    ((users : List User) → P.authenticate users name password ≡ none) × AllWrong P name posts

tries-eq-guesses :
    (P : Platform) (name : String) (posts : List (String × ℕ)) (users : List User) (s : Session)
    (u : User)
    → s.logged_in ≡ none
    → find_by_name name users ≡ some u
    → AllWrong P name posts
    → tries P name users s posts ≡ guesses u (times posts)
unfolding tries guesses
tries-eq-guesses P name [] users s u anonymous found wrong = refl
tries-eq-guesses P name ((password, t) ∷ posts) users s u anonymous found wrong =
    let (answer, users', s') = login_view P (post_of name password) t users s in
    let (rejected, found', same) =
      login_view-guess P name password t users s u anonymous found (wrong.0 users) in
    rw rejected (
      ap (count_if (guess u t).1)
        (tries-eq-guesses P name posts users' s' (guess u t).0 (rw same anonymous) found' wrong.1))

-- Whoever guesses at one account, with wrong passwords at times that do not fall, has at most five
-- of them compared, and one more for each lock time that passes: the others meet the lockout.
pub login_view_guess_bound :
    (P : Platform) (name : String) (posts : List (String × ℕ)) (users : List User) (s : Session)
    (u : User) (start last : ℕ)
    → s.logged_in ≡ none
    → find_by_name name users ≡ some u
    → AllWrong P name posts
    → IsRising start (times posts) last
    → tries P name users s posts * lock_time ≤ last - start + 5 * lock_time
login_view_guess_bound P name posts users s u start last anonymous found wrong rising =
    rw (tries-eq-guesses P name posts users s u anonymous found wrong)
      (guesses_bound (times posts) u start last rising)

-- A password signs in directly only where it is right, the account is not locked and it has no
-- second factor; then the user is the one whom `authenticate` named.
pub login_view_signs_in :
    (P : Platform) (req : LoginRequest) (now : ℕ) (users : List User) (s : Session) (k : ℕ)
    → IsPlatform P
    → s.logged_in ≡ none
    → (login_view P req now users s).2.logged_in ≡ some k
    → (u : User) × (P.authenticate users req.username req.password ≡ some u)
      × (u.totp_enabled ≡ false)
      × (u.pk ≡ k)
      × (is_locked_candidate (find_by_name req.username users) now ≡ false)
unfolding login_view
login_view_signs_in P req now users s k law anonymous signed =
    elim (Option-cases (P.authenticate users req.username req.password)) [
      | inl wrong ↦ absurd (ground arith)
      | inr (u, right) ↦ (
        u,
        right,
        ground (arith, law.login_user s u.pk),
        ground (arith, law.login_user s u.pk),
        ground (arith, law.login_user s u.pk),
      )
    ]

-- The right password of an account with no second factor signs it in, unless it is locked.
pub login_view_admits :
    (P : Platform) (req : LoginRequest) (now : ℕ) (users : List User) (s : Session) (u : User)
    → IsPlatform P
    → s.logged_in ≡ none
    → (req.is_post && req.is_valid) ≡ true
    → is_locked_candidate (find_by_name req.username users) now ≡ false
    → P.authenticate users req.username req.password ≡ some u
    → u.totp_enabled ≡ false
    → (login_view P req now users s).2.logged_in ≡ some u.pk
unfolding login_view
login_view_admits P req now users s u law anonymous posted opened right plain =
    ground (arith, law.login_user s u.pk)
