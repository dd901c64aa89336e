-- ===== src/Audit/Changes.antt =====
-- What `diff_fields` records of two states of a row (services/web/apps/audit_log/services.py).
use tmask_tt.Base.{
  ℕ, Bool, true, ==_iff, ◌≡◌, refl, String, false, ◌&&◌, not, Option, none, some, List, [], ◌∷◌,
  arith, eq_iff, inl, inr, Bool-cases, str_eq, if◌then◌else◌,
}
use tmask_tt.Audit.{
  Value, null, text, flag, number, row, str_of, normalize, value_eq, Change, Changes, Instance,
  is_in, set_change, change_of, is_unchanged, diff_loop, diff_fields,
}

-- `changes.get(f)`
unfoldable pub get : String → Changes → Option Change
get f [] = none
get f ((g, c) ∷ rest) = let other = get f rest in if str_eq g f then some c else other

get-set_change :
    (f g : String) (c : Change) (m : Changes)
    → get f (set_change g c m) ≡ (if str_eq g f then some c else get f m)
unfolding get set_change
get-set_change f g c [] = ground arith
get-set_change f g c ((h, d) ∷ m) =
    ground (arith, eq_iff g f, eq_iff h g, eq_iff h f, get-set_change f g c m)

-- What the log should hold of a field.
unfoldable pub expected : Instance → Instance → List String → String → Change
unfolding change_of
expected old new secrets f = change_of secrets f (old f) (new f)

-- One turn of the loop.
abbrev turn : Instance → Instance → List String → String → Changes → Changes
turn old new secrets g m =
    if is_unchanged old new g then m else set_change g (change_of secrets g (old g) (new g)) m

get-turn_other :
    (old new : Instance) (secrets : List String) (g : String) (m : Changes) (f : String)
    → str_eq g f ≡ false
    → get f (turn old new secrets g m) ≡ get f m
get-turn_other old new secrets g m f h =
    ground (arith, get-set_change f g (change_of secrets g (old g) (new g)) m)

get-turn_self :
    (old new : Instance) (secrets : List String) (g : String) (m : Changes)
    → get g (turn old new secrets g m)
      ≡ (if is_unchanged old new g then get g m else some (expected old new secrets g))
unfolding expected
get-turn_self old new secrets g m =
    ground (arith, get-set_change g g (change_of secrets g (old g) (new g)) m, eq_iff g g)

get-turn :
    (old new : Instance) (secrets : List String) (g : String) (m : Changes) (f : String)
    → get f (turn old new secrets g m) ≡ (
        if str_eq g f && not (is_unchanged old new f)
        then some (expected old new secrets f)
        else get f m)
get-turn old new secrets g m f = elim (Bool-cases (str_eq g f)) [
  | inl same ↦
      rw (← (eq_iff g f).0 same) (ground (arith, get-turn_self old new secrets g m, eq_iff g g))
  | inr other ↦ ground (arith, get-turn_other old new secrets g m f other)
]

-- The dictionary holds a field exactly where the loop met it before or it is tracked and differs, and
-- then with what `expected` gives.
get-diff_loop :
    (old new : Instance) (secrets fields : List String) (m : Changes) (f : String)
    → get f (diff_loop old new secrets fields m) ≡ (
        if is_in fields f && not (is_unchanged old new f)
        then some (expected old new secrets f)
        else get f m)
unfolding diff_loop
get-diff_loop old new secrets [] m f = refl
get-diff_loop old new secrets (g ∷ fields) m f = ground (
  arith,
  get-diff_loop old new secrets fields (turn old new secrets g m) f,
  get-turn old new secrets g m f,
)

-- Two values that read the same in a log: the same one, two rows of one key, or none and an empty text.
pub data Same : Value → Value → Type 0 where
  both_null : Same null null
  one_text : (s : String) → Same (text s) (text s)
  one_flag : (b : Bool) → Same (flag b) (flag b)
  one_number : (n : ℕ) → Same (number n) (number n)
  one_row : (pk : ℕ) (before after : String) → Same (row pk before) (row pk after)
  null_empty : Same null (text "")
  empty_null : Same (text "") null

-- What the log holds of a field that is tracked or not and secret or not, with an old and a new value.
pub data IsLogged (tracked secret : Bool) (old new : Value) : Option Change → Type 0 where
  untracked : tracked ≡ false → IsLogged tracked secret old new none
  unchanged : Same old new → IsLogged tracked secret old new none
  masked :
      tracked ≡ true
      → secret ≡ true
      → ¬ Same old new
      → IsLogged tracked secret old new (some (record { before = "***"; after = "***" }))
  shown :
      tracked ≡ true
      → secret ≡ false
      → ¬ Same old new
      → IsLogged tracked secret old new (some (record { before = str_of old; after = str_of new }))

null_text : (s : String) → str_eq "" s ≡ true → Same null (text s)
null_text s e = rw (← (eq_iff "" s).0 e) null_empty

text_null : (s : String) → str_eq s "" ≡ true → Same (text s) null
text_null s e = rw ((eq_iff s "").0 e) empty_null

value_eq-Same : (old new : Value) → value_eq (normalize old) (normalize new) ≡ true → Same old new
unfolding value_eq normalize
value_eq-Same null null e = both_null
value_eq-Same null (text s) e = null_text s e
value_eq-Same (text s) null e = text_null s e
value_eq-Same (text s) (text t) e = rw ((eq_iff s t).0 e) (one_text t)
value_eq-Same (flag true) (flag true) e = one_flag true
value_eq-Same (flag false) (flag false) e = one_flag false
value_eq-Same (number m) (number n) e = rw ((==_iff m n).0 e) (one_number n)
value_eq-Same (row a s) (row b t) e = rw ((==_iff a b).0 e) (one_row b s t)
value_eq-Same _ _ e = absurd (ground arith)

Same-value_eq : (old new : Value) → Same old new → value_eq (normalize old) (normalize new) ≡ true
unfolding value_eq normalize
Same-value_eq _ _ both_null = refl
Same-value_eq _ _ (one_text s) = (eq_iff s s).1 refl
Same-value_eq _ _ (one_flag true) = refl
Same-value_eq _ _ (one_flag false) = refl
Same-value_eq _ _ (one_number n) = (==_iff n n).1 refl
Same-value_eq _ _ (one_row pk a b) = (==_iff pk pk).1 refl
Same-value_eq _ _ null_empty = refl
Same-value_eq _ _ empty_null = refl

true_ne_false : {b : Bool} → b ≡ true → b ≡ false → ⊥
true_ne_false e e' = cc

-- The comparison of two states of a row holds of each field just what it should: nothing of one that is not
-- tracked or that reads the same, an empty text and none being the same; two masks of a secret one that
-- changed; the old and the new text of any other that changed.
pub get-diff_fields :
    (old new : Instance) (fields secrets : List String) (f : String)
    → IsLogged
        (is_in fields f)
        (is_in secrets f)
        (old f)
        (new f)
        (get f (diff_fields old new fields secrets))
unfolding diff_fields get is_unchanged expected change_of
get-diff_fields old new fields secrets f =
    let found = get-diff_loop old new secrets fields [] f in
    elim (Bool-cases (is_in fields f)) [
      | inr out ↦ rw (found, out) (untracked refl)
      | inl tracked ↦ elim (Bool-cases (value_eq (normalize (old f)) (normalize (new f)))) [
        | inl same ↦ rw (found, tracked, same) (unchanged (value_eq-Same (old f) (new f) same))
        | inr differ ↦
            let apart : ¬ Same (old f) (new f) =
              λ s. true_ne_false (Same-value_eq (old f) (new f) s) differ in
            elim (Bool-cases (is_in secrets f)) [
              | inl secret ↦ rw (found, tracked, differ, secret) (masked refl refl apart)
              | inr plain ↦ rw (found, tracked, differ, plain) (shown refl refl apart)
            ]
      ]
    ]

-- Two states of a row that differ from two others in nothing but the values of secret fields.
pub record Alike (old new old' new' : Instance) (secrets : List String) : Type 0 where
  pub same_old : (f : String) → is_in secrets f ≡ false → old f ≡ old' f
  pub same_new : (f : String) → is_in secrets f ≡ false → new f ≡ new' f
  pub same_test : (f : String) → is_unchanged old new f ≡ is_unchanged old' new' f

change_of-Alike :
    (old new old' new' : Instance) (secrets : List String)
    → Alike old new old' new' secrets
    → (f : String) → change_of secrets f (old f) (new f) ≡ change_of secrets f (old' f) (new' f)
unfolding change_of
change_of-Alike old new old' new' secrets h f = elim (Bool-cases (is_in secrets f)) [
  | inl secret ↦ rw (secret, change_of) refl
  | inr public ↦ rw (h.same_old f public, h.same_new f public) refl
]

diff_loop-Alike :
    (old new old' new' : Instance) (secrets : List String)
    → Alike old new old' new' secrets
    → (fields : List String) (m : Changes)
    → diff_loop old new secrets fields m ≡ diff_loop old' new' secrets fields m
unfolding diff_loop
diff_loop-Alike old new old' new' secrets h [] m = refl
diff_loop-Alike old new old' new' secrets h (f ∷ fields) m =
    rw (← h.same_test f, ← change_of-Alike old new old' new' secrets h f)
      (diff_loop-Alike old new old' new' secrets h fields (turn old new secrets f m))

-- No secret reaches the log: two comparisons that differ in nothing but the values of secret fields,
-- with the same of these changed, give the same dictionary.
pub diff_fields-Alike :
    (old new old' new' : Instance) (fields secrets : List String)
    → Alike old new old' new' secrets
    → diff_fields old new fields secrets ≡ diff_fields old' new' fields secrets
unfolding diff_fields
diff_fields-Alike old new old' new' fields secrets h =
    diff_loop-Alike old new old' new' secrets h fields []
