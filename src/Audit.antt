-- ===== src/Audit.antt =====
-- The audit log of the configuration (services/web/apps/audit_log/models.py, services.py): its rows, the
-- three functions that write one, and the comparison of two states of a row.
pub mod Changes
mod Tests
use tmask_tt.Base.{
  ℕ, String, Bool, true, false, Option, none, some, List, [], ◌∷◌, ◌==◌, any, non_empty, str_eq,
  if◌then◌else◌,
}
use tmask_tt.Base.Str.{show}

-- ACTION_CREATED, ACTION_UPDATED, ACTION_DELETED
pub data Action : Type 0 where
  created updated deleted : Action

-- The value of a field: `None`, a text, a Boolean, a number, or a row that a foreign key leads to, by its
-- key and its `str`.
pub data Value : Type 0 where
  null : Value
  text : String → Value
  flag : Bool → Value
  number : ℕ → Value
  row : (pk : ℕ) (shown : String) → Value

-- `str(value)`
unfoldable pub str_of : Value → String
str_of null = "None"
str_of (text s) = s
str_of (flag true) = "True"
str_of (flag false) = "False"
str_of (number n) = show n
str_of (row pk shown) = shown

-- `_normalize`
unfoldable pub normalize : Value → Value
normalize null = text ""
normalize (text s) = text s
normalize (flag b) = flag b
normalize (number n) = number n
normalize (row pk shown) = row pk shown

abbrev same_flag : Bool → Bool → Bool
same_flag true b = b
same_flag false true = false
same_flag false false = true

-- `==` of two values of one field; two rows are equal by their keys.
unfoldable pub value_eq : Value → Value → Bool
value_eq null null = true
value_eq (text s) (text t) = str_eq s t
value_eq (flag a) (flag b) = same_flag a b
value_eq (number a) (number b) = a == b
value_eq (row a s) (row b t) = a == b
value_eq _ _ = false

-- The old and the new text that the log keeps of a field.
pub record Change : Type 0 where
  pub before : String
  pub after : String

-- `changed_fields`: a dictionary by the names of fields, in the order of insertion.
abbrev pub Changes : Type 0
Changes = List (String × Change)

-- `changes[field] = c`
unfoldable pub set_change : String → Change → Changes → Changes
set_change f c [] = (f, c) ∷ []
set_change f c ((g, d) ∷ rest) =
    let others = set_change f c rest in if str_eq g f then (g, c) ∷ rest else (g, d) ∷ others

-- An instance by the values of its fields: `getattr`.
abbrev pub Instance : Type 0
Instance = String → Value

abbrev pub is_in : List String → String → Bool
is_in names f = any (λ g. str_eq g f) names

abbrev pub hidden : Change
hidden = record { before = "***"; after = "***" }

-- The list that is stored for a field that changed.
unfoldable pub change_of : List String → String → Value → Value → Change
unfolding str_of
change_of secrets f old_val new_val =
    if is_in secrets f then hidden else record { before = str_of old_val; after = str_of new_val }

-- Whether the loop passes over a field.
unfoldable pub is_unchanged : Instance → Instance → String → Bool
unfolding normalize value_eq
is_unchanged old new f = value_eq (normalize (old f)) (normalize (new f))

-- The loop of `diff_fields`.
unfoldable pub diff_loop : Instance → Instance → List String → List String → Changes → Changes
unfolding is_unchanged change_of set_change
diff_loop old new secrets [] changes = changes
diff_loop old new secrets (f ∷ fields) changes = diff_loop old new secrets fields (
    if is_unchanged old new f
    then changes
    else set_change f (change_of secrets f (old f) (new f)) changes)

-- `diff_fields(old, new, fields, secret_fields)`; no set of secret fields is an empty one.
unfoldable pub diff_fields : Instance → Instance → List String → List String → Changes
unfolding diff_loop
diff_fields old new fields secrets = diff_loop old new secrets fields []

-- `ConfigAuditLog`
pub record Entry : Type 0 where
  pub user : ℕ
  pub model_name : String
  pub object_id : ℕ
  pub object_repr : String
  pub action : Action
  pub changed_fields : Changes

-- The instance that an entry is about: its class, its key and its `str`.
pub record Subject : Type 0 where
  pub model : String
  pub pk : ℕ
  pub repr : String

abbrev entry : ℕ → Subject → Action → Changes → Entry
entry user s action changes = record {
  user = user;
  model_name = s.model;
  object_id = s.pk;
  object_repr = s.repr;
  action = action;
  changed_fields = changes;
}

-- The log has its last entry first, as its `ordering` says.
unfoldable pub log_created : ℕ → Subject → List Entry → List Entry
log_created user s log = entry user s created [] ∷ log

unfoldable pub log_updated : ℕ → Subject → Changes → List Entry → List Entry
log_updated user s changes log =
    if non_empty changes then entry user s updated changes ∷ log else log

unfoldable pub log_deleted : ℕ → Subject → List Entry → List Entry
log_deleted user s log = entry user s deleted [] ∷ log
