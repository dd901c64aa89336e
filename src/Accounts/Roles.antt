-- ===== src/Accounts/Roles.antt =====
-- Who may do what: `require_role` (services/web/apps/accounts/permissions.py) and the change of a
-- user's role (services/web/apps/accounts/views.py).
pub mod LastAdmin
use tmask_tt.Base.{
  ℕ, ◌+◌, String, Bool, true, false, ◌&&◌, not, Option, none, some, List, [], ◌∷◌, ltb, str_eq,
  ◌==◌, if◌then◌else◌,
}
use tmask_tt.Accounts.{
  Role, admin, operator, readonly, level_of, User, role_level, is_admin_role, is_admin, find_user,
  save_user,
}

-- The answer of a view that `require_role` guards.
pub data Guarded (A : Type 0) : Type 0 where
  to_login : Guarded A
  denied : Guarded A
  served : A → Guarded A

-- `require_role(min_role)`: an anonymous user is sent to the login page, a role below the least
-- one is refused, and only then does the view run.
unfoldable pub require_role : {A : Type 0} → Role → Option User → (User → A) → Guarded A
require_role least none view = to_login
require_role least (some u) view =
    if ltb (role_level u) (level_of least) then denied else served (view u)

-- `ROLE_CHOICES` read by its keys.
unfoldable pub parse_role : String → Option Role
parse_role s =
    if str_eq s "admin"
    then some admin
    else if str_eq s "operator"
    then some operator
    else if str_eq s "readonly"
    then some readonly
    else none

pub data RoleChange : Type 0 where
  bad_role : RoleChange
  not_found : RoleChange
  last_admin : RoleChange
  -- The old and the new role, of which `log_updated` gets a record if they differ.
  changed : Role → Role → Bool → RoleChange

same_role : Role → Role → Bool
same_role admin admin = true
same_role operator operator = true
same_role readonly readonly = true
same_role _ _ = false

-- `filter(role=ROLE_ADMIN).exclude(pk=k).count()`
unfoldable pub other_admins : ℕ → List User → ℕ
other_admins k [] = 0
other_admins k (u ∷ users) = (if is_admin u && not (u.pk == k) then 1 else 0) + other_admins k users

-- The transaction of `change_user_role`, under the lock on the rows that it reads.
unfoldable pub write_role : ℕ → User → Role → List User → RoleChange × List User
unfolding same_role other_admins save_user
write_role k target role users =
    if is_admin target && not (is_admin_role role) && other_admins k users == 0
    then (last_admin, users)
    else (
      changed target.role role (not (same_role target.role role)),
      save_user (λ u. record u { role = role }) k users,
    )

unfoldable pub change_user_role : ℕ → String → List User → RoleChange × List User
unfolding parse_role write_role find_user
change_user_role k role users = elim (parse_role role) [
  | none ↦ (bad_role, users)
  | some r ↦ elim (find_user k users) [
    | none ↦ (not_found, users)
    | some target ↦ write_role k target r users
  ]
]

-- The whole view, with its decorators.
unfoldable pub change_user_role_view :
    Option User → ℕ → String → List User → Guarded (RoleChange × List User)
unfolding require_role change_user_role
change_user_role_view actor k role users =
    require_role admin actor (λ _. change_user_role k role users)
