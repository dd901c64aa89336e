-- ===== src/Masking/Columns.antt =====
-- What masking leaves of a row (services/worker/modules/masking/faker_engine.py and the loops over
-- the columns in services/worker/modules/postgres, mysql and mssql).
use tmask_tt.Base.{
  ℕ, ◌+◌, ◌≤◌, ◌≡◌, refl, sym, inl, inr, String, Option, none, some, List, [], ◌∷◌, arith, length,
  ltb→lt, Bool-cases, length-take, Option-cases,
}
use tmask_tt.Base.Text.{Text}
use tmask_tt.Worker.{Result, ok, err}
use tmask_tt.Masking.{
  Faker, Length, chars, Rules, get, cut, is_provider, mask_value, mask_columns, cons_masked,
  draw_then,
}

cut-le : (most : ℕ) (value : Text) → length (cut (some (chars most)) value) ≤ most
unfolding cut
cut-le most value = ground (arith, length-take most value, ltb→lt (length value) most)

ok_injective : {A : Type 0} (a b : A) → ok a ≡ ok b → a ≡ b
ok_injective a b h = cc

-- A masked value is no longer than its column allows.
pub mask_value-le :
    (F : Faker) (n : ℕ) (provider : String) (most : ℕ) (value : Text)
    → mask_value F n provider (some (chars most)) ≡ ok value
    → length value ≤ most
unfolding mask_value
mask_value-le F n provider most value h = elim (Bool-cases (is_provider provider)) [
  | inl known ↦
      rw (sym (ok_injective (cut (some (chars most)) (F.draw n provider)) value (rw known at h)))
        (cut-le most (F.draw n provider))
  | inr unknown ↦ absurd (ground arith)
]

cons_masked_inv :
    (v : Text) (vs' : List Text) (m : ℕ) (rest : Result (List Text × ℕ))
    → cons_masked v rest ≡ ok (vs', m)
    → (us : List Text) × (rest ≡ ok (us, m)) × (vs' ≡ v ∷ us)
cons_masked_inv v vs' m (ok (us, k)) h = (us, ground arith, ground arith)
cons_masked_inv v vs' m (err e) h = absurd (ground arith)

draw_then_inv :
    (quote : Text → Text) (vs' : List Text) (m : ℕ) (value : Result Text)
    (rest : Result (List Text × ℕ))
    → draw_then quote value rest ≡ ok (vs', m)
    → (drawn : Text) × (us : List Text) × (value ≡ ok drawn)
      × (rest ≡ ok (us, m))
      × (vs' ≡ quote drawn ∷ us)
draw_then_inv quote vs' m (ok drawn) rest h =
    let (us, same, e) = cons_masked_inv (quote drawn) vs' m rest h in (drawn, us, refl, same, e)
draw_then_inv quote vs' m (err e) rest h = absurd (ground arith)

-- How two rows compare in one place: a column with a rule has a drawn value, any other its own.
module _ (F : Faker) (quote : Text → Text) (rules : Rules) (max_length : Text → Option Length) where
  abbrev pub IsReplaced : Option String → Text → Text → Text → Type 0
  IsReplaced none c v v' = v' ≡ v
  IsReplaced (some provider) c v v' =
      (n : ℕ) × (drawn : Text) × (mask_value F n provider (max_length c) ≡ ok drawn)
      × (v' ≡ quote drawn)

  abbrev pub IsMasked : Text → Text → Text → Type 0
  IsMasked c v v' = IsReplaced (get c rules) c v v'

  -- The same in every place; values behind the last column stay as they are.
  abbrev pub AreMasked : List Text → List Text → List Text → Type 0
  AreMasked [] vs vs' = vs' ≡ vs
  AreMasked (c ∷ cs) [] vs' = vs' ≡ []
  AreMasked (c ∷ cs) (v ∷ vs) [] = ⊥
  AreMasked (c ∷ cs) (v ∷ vs) (v' ∷ vs') = IsMasked c v v' × AreMasked cs vs vs'

  pub mask_columns-AreMasked :
      (n m : ℕ) (cs vs vs' : List Text)
      → mask_columns F quote rules max_length n cs vs ≡ ok (vs', m)
      → AreMasked cs vs vs'
  unfolding mask_columns
  mask_columns-AreMasked n m [] vs vs' h = ground arith
  mask_columns-AreMasked n m (c ∷ cs) [] vs' h = ground arith
  mask_columns-AreMasked n m (c ∷ cs) (v ∷ vs) vs' h = elim (Option-cases (get c rules)) [
    | inl plain ↦
        let (us, same, e) =
          cons_masked_inv v vs' m (mask_columns F quote rules max_length n cs vs)
            (rw (mask_columns, plain) at h) in
        let here : IsMasked c v v = rw plain refl in
        rw e (here, mask_columns-AreMasked n m cs vs us same)
    | inr (provider, ruled) ↦
        let (drawn, us, value, same, e) =
          draw_then_inv quote vs' m (mask_value F n provider (max_length c))
            (mask_columns F quote rules max_length (n + 1) cs vs) (rw (mask_columns, ruled) at h) in
        let here : IsMasked c v (quote drawn) = rw ruled (n, drawn, value, refl) in
        rw e (here, mask_columns-AreMasked (n + 1) m cs vs us same)
  ]
