-- ===== src/Database/Task/Rules.antt =====
-- The rules that a job hands to its handler (services/worker/tasks.py, `_masking_rules_for`).
use tmask_tt.Base.{
  ◌≡◌, refl, ap, ◌∙◌, String, true, false, ◌&&◌, Option, none, some, List, [], ◌∷◌, arith, inl, inr,
  Bool-cases, if◌then◌else◌,
}
use tmask_tt.Base.Text.{Text, text_eq, text_eq_sound}
use tmask_tt.Masking.{Rules as MaskingRules, Profile, get, rules_for}
use tmask_tt.Database.Task.{RuleRow, put, add_rule, masking_rules_from, masking_rules_for}

pub text_eq_refl : (s : Text) → text_eq s s ≡ true
text_eq_refl [] = refl
text_eq_refl (c ∷ s) = ground (arith, text_eq_refl s)

pub text_eq_comm : (s t : Text) → text_eq s t ≡ text_eq t s
text_eq_comm [] [] = refl
text_eq_comm [] (d ∷ t) = refl
text_eq_comm (c ∷ s) [] = refl
text_eq_comm (c ∷ s) (d ∷ t) = ground (arith, text_eq_comm s t)

-- A name that differs from one differs from what equals that one.
text_eq_apart : (j k l : Text) → text_eq j k ≡ false → text_eq j l ≡ true → text_eq k l ≡ false
text_eq_apart j k l other same = rw (← text_eq_sound j l same) (text_eq_comm k j ∙ other)

get-put :
    (k l : Text) (v : String) (m : MaskingRules)
    → get l (put k v m) ≡ (if text_eq k l then some v else get l m)
unfolding get put
get-put k l v [] = refl
get-put k l v ((j, u) ∷ m) = elim (Bool-cases (text_eq j k)) [
  | inl same ↦ rw (same, text_eq_sound j k same) (ground arith)
  | inr other ↦ rw other (ground (arith, text_eq_apart j k l other, get-put k l v m))
]

-- The provider that the last row for a column names.
abbrev pub last_provider : Text → Text → Option String → List RuleRow → Option String
last_provider table column before [] = before
last_provider table column before ((t, c, provider) ∷ rows) =
    last_provider table column
      (if text_eq t table && text_eq c column then some provider else before) rows

rules_for_cons :
    (u table : Text) (rules : MaskingRules) (rest : Profile)
    → rules_for ((u, rules) ∷ rest) table
      ≡ (if text_eq u table then rules else rules_for rest table)
unfolding rules_for get
rules_for_cons u table rules rest = ground arith

get-add_rule :
    (t c table column : Text) (provider : String) (profile : Profile)
    → get column (rules_for (add_rule (t, c, provider) profile) table) ≡ (
        if text_eq t table && text_eq c column
        then some provider
        else get column (rules_for profile table))
unfolding get add_rule rules_for
get-add_rule t c table column provider [] =
    rw (rules_for_cons t table (put c provider []) []) (elim (Bool-cases (text_eq t table)) [
      | inl same ↦ rw same (get-put c column provider [])
      | inr other ↦ rw other refl
    ])
get-add_rule t c table column provider ((u, rules) ∷ rest) = elim (Bool-cases (text_eq u t)) [
  | inl same ↦
      rw
        (
          same,
          rules_for_cons u table (put c provider rules) rest,
          rules_for_cons u table rules rest,
          text_eq_sound u t same,
        )
        (elim (Bool-cases (text_eq t table)) [
          | inl named ↦ rw named (get-put c column provider rules)
          | inr apart ↦ rw apart refl
        ])
  | inr other ↦
      rw
        (
          other,
          rules_for_cons u table rules (add_rule (t, c, provider) rest),
          rules_for_cons u table rules rest,
        )
        (elim (Bool-cases (text_eq u table)) [
          | inl named ↦ rw (named, text_eq_apart u t table other named) refl
          | inr apart ↦ rw apart (get-add_rule t c table column provider rest)
        ])
]

get-masking_rules_from :
    (rows : List RuleRow) (table column : Text) (profile : Profile)
    → get column (rules_for (masking_rules_from profile rows) table)
      ≡ last_provider table column (get column (rules_for profile table)) rows
unfolding masking_rules_from
get-masking_rules_from [] table column profile = refl
get-masking_rules_from ((t, c, provider) ∷ rows) table column profile =
    get-masking_rules_from rows table column (add_rule (t, c, provider) profile)
    ∙ ap (λ before. last_provider table column before rows)
        (get-add_rule t c table column provider profile)

-- The rules that a handler gets mask a column of a table with the provider of the last row of the
-- source connection for the two, and leave it alone where there is none.
pub get-masking_rules_for :
    (rows : List RuleRow) (table column : Text)
    → get column (rules_for (masking_rules_for rows) table) ≡ last_provider table column none rows
unfolding masking_rules_for get rules_for
get-masking_rules_for rows table column = get-masking_rules_from rows table column []
