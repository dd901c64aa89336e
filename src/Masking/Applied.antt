-- ===== src/Masking/Applied.antt =====
-- The rules that the pages save are those that a transfer applies (services/web/apps/masking/views.py,
-- services/worker/tasks.py).
use tmask_tt.Base.{
  ℕ, ◌≡◌, refl, ap, ◌∙◌, ◌⊎◌, String, true, ◌&&◌, Option, none, some, List, [], ◌∷◌, map, arith,
  inl, inr, Bool-cases, if◌then◌else◌,
}
use tmask_tt.Base.Text.{text_eq}
use tmask_tt.Masking.{get, rules_for}
use tmask_tt.Database.Task.{RuleRow, masking_rules_for}
use tmask_tt.Database.Task.Rules.{text_eq_refl, last_provider, get-masking_rules_for}
use tmask_tt.Pages.{find_row}
use tmask_tt.Masking.Managed.{MaskingRule, RuleTables, rule_key, is_same_place}
use tmask_tt.Masking.Kept.{AreRules}

-- The row of a rule as `_masking_rules_for` reads it.
abbrev pub row_of : MaskingRule → RuleRow
row_of r = (r.table_name, r.column_name, r.faker_provider)

-- Rules of the table that are for one connection, in any order.
abbrev pub AreOf : RuleTables → ℕ → List MaskingRule → Type 0
AreOf t connection [] = Unit {0}
AreOf t connection (r ∷ rs) =
    (find_row rule_key r.pk t.rules ≡ some r) × (r.connection ≡ connection) × AreOf t connection rs

abbrev pub Has : MaskingRule → List MaskingRule → Type 0
Has r [] = ⊥
Has r (q ∷ rs) = (q ≡ r) ⊎ Has r rs

module _ (t : RuleTables) (h : AreRules t) (r : MaskingRule)
    (there : find_row rule_key r.pk t.rules ≡ some r) where
  -- Another rule of the connection for the same column is the same rule.
  same_provider :
      (q : MaskingRule)
      → find_row rule_key q.pk t.rules ≡ some q
      → q.connection ≡ r.connection
      → (text_eq q.table_name r.table_name && text_eq q.column_name r.column_name) ≡ true
      → q.faker_provider ≡ r.faker_provider
  unfolding is_same_place
  same_provider q found connected named =
      let one : q.pk ≡ r.pk =
        h.apart q.pk r.pk q r found there (ground (arith, connected, named)) in
      ground (arith, one, found, there)

  -- The provider after one more row.
  abbrev turn : Option String → MaskingRule → Option String
  turn before q =
      if text_eq q.table_name r.table_name && text_eq q.column_name r.column_name
      then some q.faker_provider
      else before

  turn_kept :
      (q : MaskingRule)
      → find_row rule_key q.pk t.rules ≡ some q
      → q.connection ≡ r.connection
      → turn (some r.faker_provider) q ≡ some r.faker_provider
  turn_kept q found connected =
      elim (Bool-cases (text_eq q.table_name r.table_name && text_eq q.column_name r.column_name)) [
        | inl named ↦ rw named (ap some (same_provider q found connected named))
        | inr other ↦ rw other refl
      ]

  turn_own : (before : Option String) → turn before r ≡ some r.faker_provider
  turn_own before = rw (text_eq_refl r.table_name, text_eq_refl r.column_name) refl

  abbrev last : List MaskingRule → Option String → Option String
  last rs before = last_provider r.table_name r.column_name before (map row_of rs)

  last_provider_kept :
      (rs : List MaskingRule)
      → AreOf t r.connection rs
      → last rs (some r.faker_provider) ≡ some r.faker_provider
  last_provider_kept [] of = refl
  last_provider_kept (q ∷ rs) (found, connected, of) =
      ap (last rs) (turn_kept q found connected) ∙ last_provider_kept rs of

  last_provider_found :
      (rs : List MaskingRule) (before : Option String)
      → AreOf t r.connection rs
      → Has r rs
      → last rs before ≡ some r.faker_provider
  last_provider_found [] before of has = absurd has
  last_provider_found (q ∷ rs) before (found, connected, of) (inr later) =
      last_provider_found rs (turn before q) of later
  last_provider_found (q ∷ rs) before (found, connected, of) (inl own) =
      ap (last rs) (ap (turn before) own ∙ turn_own before) ∙ last_provider_kept rs of

-- A rule of a connection is applied by the transfers from it: whatever order the rules of the connection are
-- read in, the handler is told to mask the column of the table with the provider of the rule.
pub get-rules_of_pages :
    (t : RuleTables) (r : MaskingRule) (rs : List MaskingRule)
    → AreRules t
    → find_row rule_key r.pk t.rules ≡ some r
    → AreOf t r.connection rs
    → Has r rs
    → get r.column_name (rules_for (masking_rules_for (map row_of rs)) r.table_name)
      ≡ some r.faker_provider
get-rules_of_pages t r rs h there of has =
    get-masking_rules_for (map row_of rs) r.table_name r.column_name
    ∙ last_provider_found t h r there rs none of has
