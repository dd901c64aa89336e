-- ===== src/Masking/Tests.antt =====
-- Runs of the masking of a row, and of a rule of the pages that is applied.
use tmask_tt.Base.{◌≡◌, arith, inl, refl, Option, some, [], ◌∷◌, map}
use tmask_tt.Pages.{find_row, with_role}
use tmask_tt.Audit.{number}
use tmask_tt.Accounts.Tests.{ann}
use tmask_tt.Scheduler.{filled}
use tmask_tt.Database.Task.{masking_rules_for}
use tmask_tt.Masking.Managed.{
  MaskingRule, RuleForm, Printer, RuleTables, masking_create, is_valid, is_taken, write_rule,
  with_rule_form,
}
use tmask_tt.Masking.Kept.{AreRules, here, next, create, Steps-AreRules}
use tmask_tt.Masking.Applied.{row_of, get-rules_of_pages}
use tmask_tt.Base.Text.{Text, codes}
use tmask_tt.Masking.{
  rules_for, Faker, Length, chars, Rules, get, cut, is_provider, mask_value, mask_columns,
}
use tmask_tt.Masking.Columns.{AreMasked, mask_columns-AreMasked}

abbrev faker : Faker
faker = record { draw = λ n provider. codes "Jan Kowalski" }

abbrev rules : Rules
rules = (codes "name", "name") ∷ []

abbrev max_length : Text → Option Length
max_length column = some (chars 3)

abbrev same : Text → Text
same v = v

mask_columns-AreMasked_example :
    AreMasked faker same rules max_length
      (codes "id" ∷ codes "name" ∷ [])
      (codes "7" ∷ codes "Anna" ∷ [])
      (codes "7" ∷ codes "Jan" ∷ [])
unfolding mask_columns mask_value is_provider cut get
mask_columns-AreMasked_example =
    mask_columns-AreMasked faker same rules max_length 0 1 (codes "id" ∷ codes "name" ∷ [])
      (codes "7" ∷ codes "Anna" ∷ []) (codes "7" ∷ codes "Jan" ∷ []) refl

abbrev printer : Printer
printer = record {
  connection_value = λ pk. number pk;
  text_of = λ t. "users";
  rule_text = λ r. "users.name";
}

abbrev form : RuleForm
form = record {
  connection = 3;
  table_name = codes "users";
  column_name = codes "name";
  faker_provider = "name";
}

abbrev no_rules : RuleTables
no_rules = record { rules = []; log = [] }

AreRules-empty : AreRules no_rules
unfolding find_row
AreRules-empty = record {
  known = λ k r found. absurd (ground arith);
  apart = λ j k r q at_j at_k same. absurd (ground arith);
}

abbrev made : RuleTables
made = (masking_create printer (some ann) 4 (filled form) no_rules).1

AreRules-made : AreRules made
AreRules-made =
    Steps-AreRules printer (next here (create (some ann) 4 (filled form) no_rules)) AreRules-empty

abbrev masks_name : MaskingRule
masks_name = record {
  pk = 4;
  connection = 3;
  table_name = codes "users";
  column_name = codes "name";
  faker_provider = "name";
  created_by = some 1;
}

get-rules_of_pages_example :
    get
      (codes "name")
      (rules_for (masking_rules_for (map row_of (masks_name ∷ []))) (codes "users"))
    ≡ some "name"
unfolding find_row masking_create with_role is_valid is_taken is_provider write_rule with_rule_form
get-rules_of_pages_example =
    get-rules_of_pages made masks_name (masks_name ∷ []) AreRules-made refl (refl, refl, tt)
      (inl refl)
