-- ===== src/Masking/Kept.antt =====
-- The rules that the pages keep (services/web/apps/masking/views.py).
use tmask_tt.Base.{
  ℕ, ◌≡◌, refl, sym, ap, ◌∙◌, ◌⊎◌, true, false, Option, some, List, [], ◌∷◌, arith, ◌==◌, ==_iff,
  inl, inr, Bool-cases, Option-cases, if◌then◌else◌,
}
use tmask_tt.Accounts.{User, admin}
use tmask_tt.Masking.{is_provider}
use tmask_tt.Database.Task.Rules.{text_eq_comm}
use tmask_tt.Pages.{
  Method, Answer, with_role_keeps, post_only_keeps, or_404, find_row, find_row_own,
  find_row-save_row, find_row-delete_row,
}
use tmask_tt.Scheduler.{FormRequest, shown, invalid, filled}
use tmask_tt.Masking.Managed.{
  MaskingRule, RuleForm, RuleTables, Printer, rule_key, is_same_place, is_taken, is_valid,
  write_rule, with_rule_form, masking_create, masking_edit, masking_delete,
}

-- Every provider is one that the engine knows, and no two rules are for one column of one table of one
-- connection.
pub record AreRules (t : RuleTables) : Type 0 where
  pub known :
      (k : ℕ) (r : MaskingRule)
      → find_row rule_key k t.rules ≡ some r
      → is_provider r.faker_provider ≡ true
  pub apart :
      (j k : ℕ) (r q : MaskingRule)
      → find_row rule_key j t.rules ≡ some r
      → find_row rule_key k t.rules ≡ some q
      → is_same_place r q ≡ true
      → j ≡ k

is_same_place_comm : (r q : MaskingRule) → is_same_place r q ≡ is_same_place q r
unfolding is_same_place
is_same_place_comm r q =
    ground (arith, text_eq_comm r.table_name q.table_name, text_eq_comm r.column_name q.column_name)

-- A row that the form finds free is free of each row of another key.
is_taken-find_row :
    (new : MaskingRule) (rules : List MaskingRule) (k : ℕ) (q : MaskingRule)
    → is_taken new rules ≡ false
    → find_row rule_key k rules ≡ some q
    → (k == new.pk) ≡ false
    → is_same_place q new ≡ false
unfolding is_taken find_row
is_taken-find_row new [] k q free found other = cc
is_taken-find_row new (r ∷ rules) k q free found other =
    ground (arith, is_taken-find_row new rules k q)

-- The row that is written under its key, and a row of another key, are not for one column.
module _ (t : RuleTables) (new : MaskingRule) (free : is_taken new t.rules ≡ false) where
  is_same_place-other :
      (k : ℕ) (q : MaskingRule)
      → find_row rule_key k t.rules ≡ some q
      → (new.pk == k) ≡ false
      → is_same_place q new ≡ false
  is_same_place-other k q found other =
      is_taken-find_row new t.rules k q free found (ground (arith, other))

  module _ (t' : RuleTables)
      (written : (k : ℕ)
        → find_row rule_key k t'.rules
          ≡ (if new.pk == k then some new else find_row rule_key k t.rules))
      (k : ℕ) {q : MaskingRule} (found : find_row rule_key k t'.rules ≡ some q) where
    -- What is found under a key after the write.
    found_written :
        ((new.pk ≡ k) × (q ≡ new))
        ⊎ (((new.pk == k) ≡ false)
            × (find_row rule_key k t.rules ≡ some q)
            × (is_same_place q new ≡ false))
    found_written = elim (Bool-cases (new.pk == k)) [
      | inl own ↦ inl ((==_iff new.pk k).0 own, ground (arith, written k, own))
      | inr other ↦
          let old : find_row rule_key k t.rules ≡ some q = ground (arith, written k, other) in
          inr (other, old, is_same_place-other k q old other)
    ]

is_valid_parts :
    (new : MaskingRule) (rules : List MaskingRule)
    → is_valid new rules ≡ true
    → (is_provider new.faker_provider ≡ true) × (is_taken new rules ≡ false)
unfolding is_valid
is_valid_parts new rules h = (ground arith, ground arith)

-- A valid row written under its key.
written-AreRules :
    (t t' : RuleTables) (new : MaskingRule)
    → AreRules t
    → is_valid new t.rules ≡ true
    → ((k : ℕ)
        → find_row rule_key k t'.rules
          ≡ (if new.pk == k then some new else find_row rule_key k t.rules))
    → AreRules t'
written-AreRules t t' new h valid written =
    let (provided, free) = is_valid_parts new t.rules valid in
    let after = λ (k : ℕ) (q : MaskingRule) (f : find_row rule_key k t'.rules ≡ some q).
      found_written t new free t' written k {q = q} f in
    record {
      known = λ k r found. elim (after k r found) [
        | inl (own, is_new) ↦
            ap (λ (x : MaskingRule). is_provider x.faker_provider) is_new ∙ provided
        | inr (other, old, clash) ↦ h.known k r old
      ];
      apart = λ j k r q left right same. elim (after j r left) [
        | inl (own_j, is_new) ↦ elim (after k q right) [
          | inl (own_k, also_new) ↦ sym own_j ∙ own_k
          | inr (other, old, clash) ↦ absurd (differ r q new is_new same clash)
        ]
        | inr (other_j, old_j, clash_j) ↦ elim (after k q right) [
          | inl (own_k, is_new) ↦
              absurd (differ q r new is_new (is_same_place_comm q r ∙ same) clash_j)
          | inr (other, old, clash) ↦ h.apart j k r q old_j old same
        ]
      ];
    }
  where
    differ :
        (r q n : MaskingRule) → r ≡ n → is_same_place r q ≡ true → is_same_place q n ≡ false → ⊥
    differ r q n e same clash = cc (is_same_place_comm q r, ap (is_same_place q) e)

module _ (t : RuleTables) (h : AreRules t) where
  with_rule_form-AreRules :
      (request : FormRequest RuleForm) (old : MaskingRule)
      (view : MaskingRule → Answer × RuleTables)
      → ((new : MaskingRule)
          → new.pk ≡ old.pk
          → is_valid new t.rules ≡ true
          → AreRules (view new).1)
      → AreRules (with_rule_form request old t view).1
  unfolding with_rule_form
  with_rule_form-AreRules shown old view step = h
  with_rule_form-AreRules invalid old view step = h
  with_rule_form-AreRules (filled f) old view step =
      elim (Bool-cases (is_valid (write_rule f old) t.rules)) [
        | inl good ↦ rw good (step (write_rule f old) (unfold write_rule in refl) good)
        | inr bad ↦ rw bad h
      ]

  or_404-AreRules :
      (pk : ℕ) (view : MaskingRule → Answer × RuleTables)
      → ((r : MaskingRule) → find_row rule_key r.pk t.rules ≡ some r → AreRules (view r).1)
      → AreRules (or_404 (find_row rule_key pk t.rules) t view).1
  or_404-AreRules pk view step = elim (Option-cases (find_row rule_key pk t.rules)) [
    | inl absent ↦ rw absent h
    | inr (r, found) ↦ rw found (step r (find_row_own rule_key pk t.rules r found))
  ]

  masking_create-AreRules :
      (W : Printer) (actor : Option User) (new : ℕ) (request : FormRequest RuleForm)
      → AreRules (masking_create W actor new request t).1
  unfolding masking_create find_row
  masking_create-AreRules W actor new request = with_role_keeps AreRules admin actor t _ h (λ u.
      with_rule_form-AreRules request _ _
        (λ rule same valid. written-AreRules t _ rule h valid (λ k. refl)))

  masking_edit-AreRules :
      (W : Printer) (actor : Option User) (pk : ℕ) (request : FormRequest RuleForm)
      → AreRules (masking_edit W actor pk request t).1
  unfolding masking_edit
  masking_edit-AreRules W actor pk request = with_role_keeps AreRules admin actor t _ h (λ u.
      or_404-AreRules pk _ (λ old found. with_rule_form-AreRules request old _ (λ rule same valid.
        written-AreRules t _ rule h valid
          (λ k. find_row-save_row rule_key k rule old t.rules (rw same found)))))

  masking_delete-AreRules :
      (W : Printer) (actor : Option User) (method : Method) (pk : ℕ)
      → AreRules (masking_delete W actor method pk t).1
  unfolding masking_delete
  masking_delete-AreRules W actor method pk = with_role_keeps AreRules admin actor t _ h (λ u.
      post_only_keeps AreRules method t _ h (
        or_404-AreRules pk _ (λ rule found. record {
          known = λ k r there.
              ground (arith, h.known k r, find_row-delete_row rule_key k rule.pk t.rules);
          apart = λ j k r q left right same. ground (
            arith,
            h.apart j k r q,
            find_row-delete_row rule_key j rule.pk t.rules,
            find_row-delete_row rule_key k rule.pk t.rules,
          );
        })))

-- A request to one of the three views that write, by anyone.
pub data Step (W : Printer) : RuleTables → RuleTables → Type 0 where
  create :
      (actor : Option User) (new : ℕ) (request : FormRequest RuleForm) (t : RuleTables)
      → Step W t (masking_create W actor new request t).1
  edit :
      (actor : Option User) (pk : ℕ) (request : FormRequest RuleForm) (t : RuleTables)
      → Step W t (masking_edit W actor pk request t).1
  delete :
      (actor : Option User) (method : Method) (pk : ℕ) (t : RuleTables)
      → Step W t (masking_delete W actor method pk t).1

pub data Steps (W : Printer) (start : RuleTables) : RuleTables → Type 0 where
  here : Steps W start start
  next : {a b : RuleTables} → Steps W start a → Step W a b → Steps W start b

Step-AreRules : (W : Printer) {a b : RuleTables} → Step W a b → AreRules a → AreRules b
Step-AreRules W (create actor new request t) h = masking_create-AreRules t h W actor new request
Step-AreRules W (edit actor pk request t) h = masking_edit-AreRules t h W actor pk request
Step-AreRules W (delete actor method pk t) h = masking_delete-AreRules t h W actor method pk

-- Through every sequence of requests each rule keeps a provider that the engine knows, and no two rules are
-- for one column.
pub Steps-AreRules : (W : Printer) {a b : RuleTables} → Steps W a b → AreRules a → AreRules b
Steps-AreRules W here h = h
Steps-AreRules W (next r st) h = Step-AreRules W st (Steps-AreRules W r h)
