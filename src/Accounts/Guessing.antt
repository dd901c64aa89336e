-- ===== src/Accounts/Guessing.antt =====
-- How many passwords can be tried against one account: the lockout as a bound on guessing.
use tmask_tt.Base.{
  ℕ, suc, ◌+◌, ◌*◌, ◌≤◌, ◌<◌, ◌⊎◌, ◌-◌, ◌≡◌, refl, Bool, true, false, some, List, [], ◌∷◌, arith,
  inl, inr, if◌then◌else◌,
}
use Prim.Native.Nat.{zero}
use native.Mathlib.Decide.{dec_lt}
use tmask_tt.Accounts.{User}
use tmask_tt.Accounts.Lockout.{is_locked_out, register_failed_login, lock_time}

-- One wrong password at the time `now`: the state after it, and whether the password was compared
-- at all. A locked account turns the request away before `authenticate`.
unfoldable pub guess : User → ℕ → User × Bool
guess u now = if is_locked_out u now then (u, false) else (register_failed_login u now, true)

abbrev pub count_if : Bool → ℕ → ℕ
count_if true n = suc n
count_if false n = n

-- Wrong passwords at the given times, and how many of them were compared.
unfoldable pub guesses : User → List ℕ → ℕ
guesses u [] = 0
guesses u (t ∷ ts) = count_if (guess u t).1 (guesses (guess u t).0 ts)

-- The times do not fall, from `now` up to `last`.
abbrev pub IsRising : ℕ → List ℕ → ℕ → Type 0
IsRising now [] last = now ≤ last
IsRising now (t ∷ ts) last = (now ≤ t) × IsRising t ts last

IsRising-le : (now : ℕ) (ts : List ℕ) (last : ℕ) → IsRising now ts last → now ≤ last
IsRising-le now [] last h = h
IsRising-le now (t ∷ ts) last h = omega (arith, IsRising-le t ts last h.1)

guess_locked :
    (u : User) (t held : ℕ) → u.locked_until ≡ some held → t < held → guess u t ≡ (u, false)
unfolding guess is_locked_out
guess_locked u t held e h = ground arith

guess_open :
    (u : User) (t held : ℕ)
    → u.locked_until ≡ some held
    → held ≤ t
    → guess u t ≡ (register_failed_login u t, true)
unfolding guess is_locked_out
guess_open u t held e h = ground arith

-- From the fourth failure on, every further one locks the account for the lock time.
register_failed_login_locks :
    (u : User) (t : ℕ)
    → 4 ≤ u.failed_login_attempts
    → (4 ≤ (register_failed_login u t).failed_login_attempts)
      × ((register_failed_login u t).locked_until ≡ some (t + lock_time))
unfolding register_failed_login
register_failed_login_locks u t h = ground arith

-- Once the next failure locks the account, a lock until `held` leaves one comparison for each
-- lock time that fits before `last`.
guesses_held :
    (ts : List ℕ) (u : User) (now last held : ℕ)
    → 4 ≤ u.failed_login_attempts
    → u.locked_until ≡ some held
    → IsRising now ts last
    → guesses u ts * lock_time ≤ last + lock_time - held
unfolding guesses
guesses_held [] u now last held f e r = omega arith
guesses_held (t ∷ ts) u now last held f e r = elim (dec_lt t held) [
  | yes locked ↦ rw (guess_locked u t held e locked) (guesses_held ts u t last held f e r.1)
  | no opened ↦
      let (f', e') = register_failed_login_locks u t f in
      rw (guess_open u t held e (omega arith)) (
        omega (
          arith,
          guesses_held ts (register_failed_login u t) t last (t + lock_time) f' e' r.1,
          IsRising-le t ts last r.1,
        ))
]

-- A step from any state: the account stays as it was, or it takes one failure more.
guess_cases :
    (u : User) (t : ℕ) → (guess u t ≡ (u, false)) ⊎ (guess u t ≡ (register_failed_login u t, true))
unfolding guess
guess_cases u t = ground arith

register_failed_login_counts :
    (u : User) (t : ℕ)
    → (register_failed_login u t).failed_login_attempts ≡ u.failed_login_attempts + 1
unfolding register_failed_login
register_failed_login_counts u t = refl

guesses_from :
    (ts : List ℕ) (k : ℕ) (u : User) (now last : ℕ)
    → 4 ≤ u.failed_login_attempts + k
    → IsRising now ts last
    → guesses u ts * lock_time ≤ last - now + (k + 1) * lock_time
unfolding guesses
guesses_from [] k u now last f r = omega arith
guesses_from (t ∷ ts) zero u now last f r = elim (guess_cases u t) [
  | inl away ↦ rw away (omega (arith, guesses_from ts zero u t last f r.1))
  | inr compared ↦
      let (f', e') = register_failed_login_locks u t (omega arith) in
      rw compared (
        omega (
          arith,
          guesses_held ts (register_failed_login u t) t last (t + lock_time) f' e' r.1,
          IsRising-le t ts last r.1,
        ))
]
guesses_from (t ∷ ts) (suc k) u now last f r = elim (guess_cases u t) [
  | inl away ↦ rw away (omega (arith, guesses_from ts (suc k) u t last f r.1))
  | inr compared ↦ rw compared (
      omega (
        arith,
        guesses_from ts k (register_failed_login u t) t last
            (omega (arith, register_failed_login_counts u t)) r.1,
        IsRising-le t ts last r.1,
      ))
]

-- Over any stretch of time the passwords compared for one account are at most five, and one more
-- for each lock time that passes.
pub guesses_bound :
    (ts : List ℕ) (u : User) (now last : ℕ)
    → IsRising now ts last
    → guesses u ts * lock_time ≤ last - now + 5 * lock_time
guesses_bound ts u now last r = guesses_from ts 4 u now last (omega arith) r
