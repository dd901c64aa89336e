-- ===== src/Masking.antt =====
-- Masking of personal data (services/worker/modules/masking/faker_engine.py) and the loop over the
-- columns of a row that the handlers of the three databases have in common.
pub mod Columns
pub mod Managed
pub mod Kept
pub mod Applied
mod Tests
use tmask_tt.Base.{
  ℕ, suc, ◌+◌, ◌-◌, String, ◌<>◌, Bool, true, false, ◌||◌, Option, none, some, List, [], ◌∷◌, ltb,
  str_eq, length, take, non_empty, if◌then◌else◌,
}
use tmask_tt.Base.Text.{Text, text_eq}
use tmask_tt.Worker.{Result, ok, err, value_error}

-- What the generators of `PROVIDERS` give: the answer to a provider's name at each draw.
pub record Faker : Type 0 where
  pub draw : ℕ → String → Text

-- A `character_maximum_length`: `chars n` is n, and `minus n` is -(n + 1), which SQL Server gives for
-- the types of no limit.
pub data Length : Type 0 where
  chars : ℕ → Length
  minus : ℕ → Length

-- The keys of PROVIDERS.
unfoldable pub is_provider : String → Bool
is_provider s =
    str_eq s "first_name"
    || str_eq s "last_name"
    || str_eq s "name"
    || str_eq s "email"
    || str_eq s "phone_number"
    || str_eq s "street_address"
    || str_eq s "city"
    || str_eq s "postcode"
    || str_eq s "country"
    || str_eq s "company"
    || str_eq s "job_title"

-- `value[:max_length]` of a value that is longer than `max_length`; a negative number counts from the end.
unfoldable pub cut : Option Length → Text → Text
cut none value = value
cut (some (chars n)) value = if ltb n (length value) then take n value else value
cut (some (minus n)) value = take (length value - suc n) value

-- `mask_value`, at a draw. The name in the message is written as `repr` writes a name with no quote
-- and no backslash.
unfoldable pub mask_value : Faker → ℕ → String → Option Length → Result Text
unfolding is_provider cut
mask_value F n provider max_length =
    if is_provider provider
    then ok (cut max_length (F.draw n provider))
    else err (value_error ("Unknown masking provider: '" <> (provider <> "'")))

-- A dictionary by texts, as an association list; `d.get(k)`.
unfoldable pub get {ℓ} : {A : Type ℓ} → Text → List (Text × A) → Option A
get k [] = none
get k ((j, v) ∷ m) = if text_eq j k then some v else get k m

-- The rules of one table: the provider of each masked column.
abbrev pub Rules : Type 0
Rules = List (Text × String)

-- `masking_rules`, by table, and the lengths of the columns, by table and column.
abbrev pub Profile : Type 0
Profile = List (Text × Rules)

abbrev pub Lengths : Type 0
Lengths = List (Text × List (Text × Option Length))

-- `d.get(table, {})`
abbrev pub or_empty {ℓ} : {A : Type ℓ} → Option (List A) → List A
or_empty none = []
or_empty (some xs) = xs

abbrev pub joined {ℓ} : {A : Type ℓ} → Option (Option A) → Option A
joined none = none
joined (some o) = o

-- `column_lengths.get(table, {}).get(col)`
unfoldable pub length_of : Lengths → Text → Text → Option Length
unfolding get
length_of lengths table col = joined (get col (or_empty (get table lengths)))

-- `masking_rules.get(table, {})`
unfoldable pub rules_for : Profile → Text → Rules
unfolding get
rules_for profile table = or_empty (get table profile)

-- A masked row, and how many draws were made by then.
abbrev pub cons_masked : Text → Result (List Text × ℕ) → Result (List Text × ℕ)
cons_masked v (ok (vs, n)) = ok (v ∷ vs, n)
cons_masked v (err e) = err e

abbrev pub draw_then : (Text → Text) → Result Text → Result (List Text × ℕ) → Result (List Text × ℕ)
draw_then quote (ok v) rest = cons_masked (quote v) rest
draw_then quote (err e) rest = err e

-- The loop `for i, col in enumerate(columns)` over the values of a row: a value in the place of a
-- column with a rule is replaced by what `quote` makes of a drawn one; columns behind the last value
-- are passed over.
module _ (F : Faker) (quote : Text → Text) (rules : Rules) (max_length : Text → Option Length) where
  unfoldable pub mask_columns : ℕ → List Text → List Text → Result (List Text × ℕ)
  unfolding get
  mask_columns n [] values = ok (values, n)
  mask_columns n (c ∷ cs) [] = ok ([], n)
  mask_columns n (c ∷ cs) (v ∷ vs) = elim (get c rules) [
    | none ↦ cons_masked v (mask_columns n cs vs)
    | some provider ↦
        draw_then quote (mask_value F n provider (max_length c)) (mask_columns (n + 1) cs vs)
  ]
