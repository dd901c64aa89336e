-- ===== src/Masking/Managed.antt =====
-- The pages of masking rules (services/web/apps/masking/views.py, models.py).
use tmask_tt.Base.{
  ℕ, String, Bool, ◌&&◌, not, Option, some, List, [], ◌∷◌, any, ◌==◌, str_eq, if◌then◌else◌,
}
use tmask_tt.Base.Text.{Text, text_eq}
use tmask_tt.Accounts.{User, admin}
use tmask_tt.Audit.{
  Value, text, null, Instance, Entry, Subject, diff_fields, log_created, log_updated, log_deleted,
}
use tmask_tt.Masking.{is_provider}
use tmask_tt.Pages.{
  Method, Answer, done, form_page, with_role, post_only, or_404, find_row, save_row, delete_row,
}
use tmask_tt.Scheduler.{FormRequest, shown, invalid, filled}

-- `MaskingRule`
pub record MaskingRule : Type 0 where
  pub pk : ℕ
  pub connection : ℕ
  pub table_name : Text
  pub column_name : Text
  pub faker_provider : String
  pub created_by : Option ℕ

-- The fields of the form, where Django's own checks of each of them pass but for the choice of the provider.
pub record RuleForm : Type 0 where
  pub connection : ℕ
  pub table_name : Text
  pub column_name : Text
  pub faker_provider : String

pub record RuleTables : Type 0 where
  pub rules : List MaskingRule
  pub log : List Entry

abbrev pub rule_key : MaskingRule → ℕ
rule_key r = r.pk

-- The three columns of `unique_together`.
unfoldable pub is_same_place : MaskingRule → MaskingRule → Bool
is_same_place r q =
    (r.connection == q.connection)
    && text_eq r.table_name q.table_name
    && text_eq r.column_name q.column_name

-- A rule of another key that has them.
unfoldable pub is_taken : MaskingRule → List MaskingRule → Bool
unfolding is_same_place
is_taken new rules = any (λ r. not (r.pk == new.pk) && is_same_place r new) rules

-- `form.is_valid()`: the provider is one of FAKER_PROVIDER_CHOICES, and `validate_unique` finds no other row.
unfoldable pub is_valid : MaskingRule → List MaskingRule → Bool
is_valid new rules = is_provider new.faker_provider && not (is_taken new rules)

-- The row that a form makes of another one.
unfoldable pub write_rule : RuleForm → MaskingRule → MaskingRule
write_rule f r = record r {
  connection = f.connection;
  table_name = f.table_name;
  column_name = f.column_name;
  faker_provider = f.faker_provider;
}

-- How the log shows a connection, a text and a rule.
pub record Printer : Type 0 where
  pub connection_value : ℕ → Value
  pub text_of : Text → String
  pub rule_text : MaskingRule → String

-- `getattr` of MASKING_RULE_TRACKED_FIELDS.
unfoldable pub rule_values : Printer → MaskingRule → Instance
rule_values W r field =
    if str_eq field "connection"
    then W.connection_value r.connection
    else if str_eq field "table_name"
    then text (W.text_of r.table_name)
    else if str_eq field "column_name"
    then text (W.text_of r.column_name)
    else if str_eq field "faker_provider"
    then text r.faker_provider
    else null

abbrev pub rule_tracked_fields : List String
rule_tracked_fields = "connection" ∷ "table_name" ∷ "column_name" ∷ "faker_provider" ∷ []

abbrev rule_subject : Printer → MaskingRule → Subject
rule_subject W r = record { model = "MaskingRule"; pk = r.pk; repr = W.rule_text r }

-- A request with a form, with the view of the row that a valid one makes of another.
unfoldable pub with_rule_form :
    FormRequest RuleForm
    → MaskingRule
    → RuleTables
    → (MaskingRule → Answer × RuleTables)
    → Answer × RuleTables
unfolding is_valid write_rule
with_rule_form shown r t view = (form_page, t)
with_rule_form invalid r t view = (form_page, t)
with_rule_form (filled f) r t view =
    if is_valid (write_rule f r) t.rules then view (write_rule f r) else (form_page, t)

abbrev blank : ℕ → ℕ → MaskingRule
blank pk user = record {
  pk = pk;
  connection = 0;
  table_name = [];
  column_name = [];
  faker_provider = "";
  created_by = some user;
}

module _ (W : Printer) where
  unfoldable pub masking_create :
      Option User → ℕ → FormRequest RuleForm → RuleTables → Answer × RuleTables
  unfolding with_role with_rule_form log_created
  masking_create actor new request t = with_role admin actor t (λ u.
      with_rule_form request (blank new u.pk) t (λ rule. (
        done,
        record { rules = rule ∷ t.rules; log = log_created u.pk (rule_subject W rule) t.log },
      )))

  unfoldable pub masking_edit :
      Option User → ℕ → FormRequest RuleForm → RuleTables → Answer × RuleTables
  unfolding with_role with_rule_form find_row save_row diff_fields rule_values log_updated
  masking_edit actor pk request t = with_role admin actor t (λ u.
      or_404 (find_row rule_key pk t.rules) t (λ old. with_rule_form request old t (λ rule. (
        done,
        record {
          rules = save_row rule_key rule t.rules;
          log =
              log_updated u.pk (rule_subject W rule)
                (diff_fields (rule_values W old) (rule_values W rule) rule_tracked_fields []) t.log;
        },
      ))))

  unfoldable pub masking_delete : Option User → Method → ℕ → RuleTables → Answer × RuleTables
  unfolding with_role find_row delete_row log_deleted
  masking_delete actor method pk t = with_role admin actor t (λ u. post_only method t (
      or_404 (find_row rule_key pk t.rules) t (λ rule. (
        done,
        record {
          rules = delete_row rule_key rule.pk t.rules;
          log = log_deleted u.pk (rule_subject W rule) t.log;
        },
      ))))
