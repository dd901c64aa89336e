-- ===== src/Pages.antt =====
-- What the views of the web application share: Django's `get_object_or_404`, saves and deletes over a table
-- whose rows have keys, and the decorators of a view (services/web/apps/accounts/permissions.py).
use mathlib.Core.Path.{subst}
use tmask_tt.Base.{
  ℕ, ◌≡◌, refl, sym, String, false, Option, none, some, List, [], ◌∷◌, arith, ltb, ◌==◌, ==_iff,
  Bool-cases, ◌⊎◌, inl, inr, if◌then◌else◌,
}
use tmask_tt.Accounts.{Role, User, role_level, level_of}
use tmask_tt.Accounts.Roles.{to_login, denied, served, require_role}

pub data Method : Type 0 where
  get post : Method

-- The answer of a view that writes: a redirect when it is done, the page of its form, or a refusal.
pub data Answer : Type 0 where
  done : Answer
  -- an exception that the view does not catch
  failed : Answer
  form_page : Answer
  -- the page of the form with an error that the view adds
  page_error : String → Answer
  missing : Answer
  not_allowed : Answer
  needs_login : Answer
  needs_role : Answer

-- `@require_role(least)` around a view that reads and writes a state.
unfoldable pub with_role : {S : Type 0} → Role → Option User → S → (User → Answer × S) → Answer × S
unfolding require_role
with_role least actor s view = elim (require_role least actor view) [
  | to_login ↦ (needs_login, s)
  | denied ↦ (needs_role, s)
  | served r ↦ r
]

-- `@require_POST`
abbrev pub post_only : {S : Type 0} → Method → S → Answer × S → Answer × S
post_only get s r = (not_allowed, s)
post_only post s r = r

-- `get_object_or_404`
abbrev pub or_404 : {A S : Type 0} → Option A → S → (A → Answer × S) → Answer × S
or_404 none s view = (missing, s)
or_404 (some a) s view = view a

-- What holds of the state before a view and is kept by its body holds after it.
pub with_role_keeps :
    {S : Type 0} (K : S → Type 0) (least : Role) (actor : Option User) (s : S)
    (view : User → Answer × S)
    → K s
    → ((u : User) → K (view u).1)
    → K (with_role least actor s view).1
unfolding with_role require_role
with_role_keeps K least none s view h step = h
with_role_keeps K least (some u) s view h step =
    elim (Bool-cases (ltb (role_level u) (level_of least))) [
      | inl low ↦ rw (low, with_role) h
      | inr high ↦ rw (high, with_role) (step u)
    ]

-- A view runs for a user whose role is high enough, or nothing happens.
pub with_role-cases :
    {S : Type 0} (least : Role) (actor : Option User) (s : S) (view : User → Answer × S)
    → ((with_role least actor s view).1 ≡ s)
      ⊎ ((u : User) × (actor ≡ some u)
          × (ltb (role_level u) (level_of least) ≡ false)
          × (with_role least actor s view ≡ view u))
unfolding with_role require_role
with_role-cases least none s view = inl refl
with_role-cases least (some u) s view = elim (Bool-cases (ltb (role_level u) (level_of least))) [
  | inl low ↦ inl (rw (low, with_role) refl)
  | inr high ↦ inr (u, refl, high, rw (high, with_role) refl)
]

pub post_only_keeps :
    {S : Type 0} (K : S → Type 0) (method : Method) (s : S) (r : Answer × S)
    → K s
    → K r.1
    → K (post_only method s r).1
post_only_keeps K get s r h k = h
post_only_keeps K post s r h k = k

-- A table of rows by their keys.
module _ {A : Type 0} (key : A → ℕ) where
  unfoldable pub find_row : ℕ → List A → Option A
  find_row k [] = none
  find_row k (r ∷ rows) = let rest = find_row k rows in if key r == k then some r else rest

  -- `save()` of a row that the table has.
  unfoldable pub save_row : A → List A → List A
  save_row new [] = []
  save_row new (r ∷ rows) =
      let rest = save_row new rows in if key r == key new then new ∷ rest else r ∷ rest

  -- `delete()`
  unfoldable pub delete_row : ℕ → List A → List A
  delete_row k [] = []
  delete_row k (r ∷ rows) = let rest = delete_row k rows in if key r == k then rest else r ∷ rest

  pub key-find_row : (k : ℕ) (rows : List A) (r : A) → find_row k rows ≡ some r → key r ≡ k
  unfolding find_row
  key-find_row k [] r h = cc
  key-find_row k (q ∷ rows) r h = ground (arith, key-find_row k rows r)

  pub find_row_own :
      (k : ℕ) (rows : List A) (r : A) → find_row k rows ≡ some r → find_row (key r) rows ≡ some r
  find_row_own k rows r h = subst (λ j. find_row j rows ≡ some r) (sym (key-find_row k rows r h)) h

  find_row-save_row_other :
      (j : ℕ) (new : A) (rows : List A)
      → (key new == j) ≡ false
      → find_row j (save_row new rows) ≡ find_row j rows
  unfolding find_row save_row
  find_row-save_row_other j new [] h = refl
  find_row-save_row_other j new (r ∷ rows) h = ground (arith, find_row-save_row_other j new rows)

  find_row-save_row_self :
      (new r : A) (rows : List A)
      → find_row (key new) rows ≡ some r
      → find_row (key new) (save_row new rows) ≡ some new
  unfolding find_row save_row
  find_row-save_row_self new r [] h = cc
  find_row-save_row_self new r (q ∷ rows) h = ground (arith, find_row-save_row_self new r rows)

  pub find_row-save_row :
      (j : ℕ) (new r : A) (rows : List A)
      → find_row (key new) rows ≡ some r
      → find_row j (save_row new rows) ≡ (if key new == j then some new else find_row j rows)
  find_row-save_row j new r rows h = elim (Bool-cases (key new == j)) [
    | inl same ↦ rw (same, ← (==_iff (key new) j).0 same) (find_row-save_row_self new r rows h)
    | inr other ↦ rw other (find_row-save_row_other j new rows other)
  ]

  pub find_row-delete_row :
      (j k : ℕ) (rows : List A)
      → find_row j (delete_row k rows) ≡ (if k == j then none else find_row j rows)
  unfolding find_row delete_row
  find_row-delete_row j k [] = ground arith
  find_row-delete_row j k (r ∷ rows) = ground (arith, find_row-delete_row j k rows)
