-- ===== src/Accounts/Roles/LastAdmin.antt =====
-- What a change of a role does to the table of users, and why one admin always stays
-- (services/web/apps/accounts/views.py, `change_user_role`).
use mathlib.Core.Option
use tmask_tt.Base.{
  ℕ, ◌+◌, ◌≤◌, ◌≡◌, refl, String, false, Option, none, some, List, [], ◌∷◌, arith, ◌==◌, inl, inr,
  Option-cases, if◌then◌else◌,
}
use tmask_tt.Accounts.{Role, admin, User, is_admin, find_user, save_user, IsKeyed}
use tmask_tt.Accounts.Roles.{
  RoleChange, changed, last_admin, bad_role, not_found, served, parse_role, other_admins,
  write_role, change_user_role, change_user_role_view,
}

-- How many users of the table are admins.
unfoldable pub admins : List User → ℕ
admins [] = 0
admins (u ∷ users) = (if is_admin u then 1 else 0) + admins users

other_admins-le-admins :
    (k : ℕ) (f : User → User) (users : List User)
    → other_admins k users ≤ admins (save_user f k users)
unfolding other_admins admins save_user
other_admins-le-admins k f [] = omega arith
other_admins-le-admins k f (u ∷ users) = ground (arith, other_admins-le-admins k f users)

admins-save_user_admin :
    (k : ℕ) (users : List User)
    → admins users ≤ admins (save_user (λ u. record u { role = admin }) k users)
unfolding admins save_user
admins-save_user_admin k [] = omega arith
admins-save_user_admin k (u ∷ users) = ground (arith, admins-save_user_admin k users)

save_user_absent :
    (f : User → User) (k : ℕ) (users : List User)
    → find_user k users ≡ none
    → save_user f k users ≡ users
unfolding save_user find_user
save_user_absent f k [] h = refl
save_user_absent f k (u ∷ users) h = ground (arith, save_user_absent f k users)

-- Writing to a row that is no admin's takes no admin away.
admins-save_user_other :
    (f : User → User) (k : ℕ) (users : List User) (t : User)
    → IsKeyed users
    → find_user k users ≡ some t
    → is_admin t ≡ false
    → admins users ≤ admins (save_user f k users)
unfolding admins save_user find_user
admins-save_user_other f k [] t keyed found h = cc
admins-save_user_other f k (u ∷ users) t keyed found h =
    ground (arith, save_user_absent f k users, admins-save_user_other f k users t)

write_role_keeps_admin :
    (k : ℕ) (t : User) (r : Role) (users : List User)
    → IsKeyed users
    → find_user k users ≡ some t
    → 1 ≤ admins users
    → 1 ≤ admins (write_role k t r users).1
unfolding write_role
write_role_keeps_admin k t admin users keyed found h =
    ground (arith, admins-save_user_admin k users)
write_role_keeps_admin k t r users keyed found h = ground (
  arith,
  other_admins-le-admins k (λ (u : User). record u { role = r }) users,
  admins-save_user_other (λ (u : User). record u { role = r }) k users t keyed found,
)

-- Whatever is asked, and whoever asks: if some user is an admin, some user still is one afterwards.
pub change_user_role_keeps_admin :
    (k : ℕ) (role : String) (users : List User)
    → IsKeyed users
    → 1 ≤ admins users
    → 1 ≤ admins (change_user_role k role users).1
unfolding change_user_role
change_user_role_keeps_admin k role users keyed h = elim (Option-cases (find_user k users)) [
  | inl absent ↦ ground arith
  | inr (t, found) ↦ elim (Option-cases (parse_role role)) [
    | inl bad ↦ ground arith
    | inr (r, parsed) ↦
        rw (parsed, found, change_user_role) (write_role_keeps_admin k t r users keyed found h)
  ]
]

pub find_user-save_user :
    (write : User → User) (j k : ℕ) (users : List User)
    → ((u : User) → (write u).pk ≡ u.pk)
    → find_user j (save_user write k users)
      ≡ (if j == k then Option.map write (find_user k users) else find_user j users)
unfolding find_user save_user
find_user-save_user write j k [] same = ground arith
find_user-save_user write j k (u ∷ users) same =
    ground (arith, same u, find_user-save_user write j k users same)

abbrev with_role : Role → User → User
with_role r u = record u { role = r }

-- What an answer says of the table after it, read at the primary key `j`.
abbrev pub Wrote : ℕ → ℕ → String → List User → RoleChange × List User → Type 0
Wrote k j role users (bad_role, after) = (parse_role role ≡ none) × (after ≡ users)
Wrote k j role users (not_found, after) = (find_user k users ≡ none) × (after ≡ users)
Wrote k j role users (last_admin, after) = (other_admins k users ≡ 0) × (after ≡ users)
Wrote k j role users (changed was r logged, after) =
    (parse_role role ≡ some r)
    × (find_user j after
        ≡ (if j == k then Option.map (with_role r) (find_user k users) else find_user j users))

write_role-Wrote :
    (k j : ℕ) (role : String) (r : Role) (t : User) (users : List User)
    → parse_role role ≡ some r
    → Wrote k j role users (write_role k t r users)
unfolding write_role
write_role-Wrote k j role r t users parsed =
    ground (arith, find_user-save_user (with_role r) j k users (λ u. refl))

-- A change that is answered as done gives the user the role that was asked for and leaves every
-- other user as it was. The other answers leave the whole table as it was: the role is none of the
-- three, the user does not exist, or there is no admin beside the user.
pub change_user_role-Wrote :
    (k j : ℕ) (role : String) (users : List User)
    → Wrote k j role users (change_user_role k role users)
unfolding change_user_role
change_user_role-Wrote k j role users = elim (Option-cases (parse_role role)) [
  | inl bad ↦ rw (bad, change_user_role) (bad, refl)
  | inr (r, parsed) ↦ elim (Option-cases (find_user k users)) [
    | inl absent ↦ rw (parsed, absent, change_user_role) (absent, refl)
    | inr (t, found) ↦
        rw (parsed, found, change_user_role) (write_role-Wrote k j role r t users parsed)
  ]
]

-- The table changes only for a signed-in admin: an anonymous user is sent to the login page, any
-- other role is refused, and in both cases the view does not run.
pub change_user_role_view_admin :
    (actor : Option User) (k : ℕ) (role : String) (users : List User)
    (done : RoleChange × List User)
    → change_user_role_view actor k role users ≡ served done
    → (u : User) × (actor ≡ some u) × (u.role ≡ admin) × (done ≡ change_user_role k role users)
unfolding change_user_role_view
change_user_role_view_admin none k role users done h = cc
change_user_role_view_admin (some u) k role users done h = (u, refl, ground arith, ground arith)
