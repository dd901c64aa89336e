-- ===== src/Worker/Effects.antt =====
-- Rules for the parts of a handler: which steps leave the temporary files and the held paths alone.
use tmask_tt.Base.{
  arith, ◌≡◌, ap, sym, refl, ◌∙◌, String, Bool, true, false, Option, List, ◌⊎◌, inl, inr,
  if◌then◌else◌,
}
use tmask_tt.Worker.{
  World, Result, ok, err, Exn, Event, Eff, pure, raise, raise_if, ◌>>=◌, catch, when, emit, ask,
  lift,
}

-- The files and the held paths of a world.
abbrev pub Files : Type 0
Files = List String × Option String × Option String × Option String

abbrev pub files : World → Files
files w = (w.temps, w.encrypted_path, w.known_hosts_path, w.ssh_key_path)

-- A step that touches neither.
pub record KeepsFiles {A : Type 0} (m : Eff A) : Type 0 where
  pub keep : (w : World) → files (m w).1 ≡ files w

module _ {A : Type 0} where
  pub pure-KeepsFiles : (a : A) → KeepsFiles (pure a)
  unfolding pure
  pure-KeepsFiles a = record { keep = λ w. refl }

  pub raise-KeepsFiles : (e : Exn) → KeepsFiles (raise {A = A} e)
  unfolding raise
  raise-KeepsFiles e = record { keep = λ w. refl }

  pub lift-KeepsFiles : (r : Result A) → KeepsFiles (lift r)
  unfolding lift
  lift-KeepsFiles r = record { keep = λ w. refl }

  pub ask-KeepsFiles : (f : World → Result A) → KeepsFiles (ask f)
  unfolding ask
  ask-KeepsFiles f = record { keep = λ w. refl }

  pub if-KeepsFiles :
      (b : Bool) {m n : Eff A} → KeepsFiles m → KeepsFiles n → KeepsFiles (if b then m else n)
  if-KeepsFiles true hm hn = hm
  if-KeepsFiles false hm hn = hn

  pub catch-KeepsFiles :
      {m : Eff A} {h : Exn → Eff A}
      → KeepsFiles m
      → ((e : Exn) → KeepsFiles (h e))
      → KeepsFiles (catch m h)
  unfolding catch
  catch-KeepsFiles {m} {h} hm hh = record { keep = λ w. go (m w).0 (m w).1 w (hm.keep w) }
    where
      go :
          (r : Result A) (w' w : World)
          → files w' ≡ files w
          → files (elim r as (λ _. Result A × World) [ ok a ↦ (ok a, w') | err e ↦ h e w' ]).1
            ≡ files w
      go (ok a) w' w k = k
      go (err e) w' w k = (hh e).keep w' ∙ k

pub emit-KeepsFiles : (e : Event) → KeepsFiles (emit e)
unfolding emit
emit-KeepsFiles e = record { keep = λ w. refl }

pub raise_if-KeepsFiles : (b : Bool) (e : Exn) → KeepsFiles (raise_if b e)
unfolding raise_if
raise_if-KeepsFiles b e = record { keep = λ w. refl }

pub when-KeepsFiles : (b : Bool) {m : Eff (Unit {0})} → KeepsFiles m → KeepsFiles (when b m)
unfolding when pure
when-KeepsFiles true h = h
when-KeepsFiles false h = record { keep = λ w. refl }

pub bind-KeepsFiles :
    {A B : Type 0} {m : Eff A} {f : A → Eff B}
    → KeepsFiles m
    → ((a : A) → KeepsFiles (f a))
    → KeepsFiles (m >>= f)
unfolding ◌>>=◌
bind-KeepsFiles {A} {B} {m} {f} hm hf = record { keep = λ w. go (m w).0 (m w).1 w (hm.keep w) }
  where
    go :
        (r : Result A) (w' w : World)
        → files w' ≡ files w
        → files (elim r as (λ _. Result B × World) [ ok a ↦ f a w' | err e ↦ (err e, w') ]).1
          ≡ files w
    go (ok a) w' w k = (hf a).keep w' ∙ k
    go (err e) w' w k = k

-- With these `search` proves it of a `do` block.
pub ruleset keeping = (
  bind-KeepsFiles, pure-KeepsFiles, raise-KeepsFiles, raise_if-KeepsFiles, lift-KeepsFiles,
  ask-KeepsFiles, if-KeepsFiles, when-KeepsFiles, catch-KeepsFiles, emit-KeepsFiles,
)

-- A split on how a step ended, which keeps the equation.
pub outcome_cases :
    {A : Type 0} (x : Result A × World)
    → ((a : A) × (w : World) × (x ≡ (ok a, w))) ⊎ ((e : Exn) × (w : World) × (x ≡ (err e, w)))
outcome_cases (ok a, w) = inl (a, w, refl)
outcome_cases (err e, w) = inr (e, w, refl)

-- A chain of two steps, by how the first one ended.
module _ {A B : Type 0} (m : Eff A) (f : A → Eff B) (w w' : World) where
  pub bind_ok : (a : A) → m w ≡ (ok a, w') → (m >>= f) w ≡ f a w'
  unfolding ◌>>=◌
  bind_ok a e = ground arith

  pub bind_err : (e : Exn) → m w ≡ (err e, w') → (m >>= f) w ≡ (err e, w')
  unfolding ◌>>=◌
  bind_err x e = ground arith

err_ne_ok : {B : Type 0} (x : Exn) (b : B) → err x ≡ ok b → ⊥
err_ne_ok x b h = cc

-- A chain that returns: both of its steps returned.
pub bind_inv :
    {A B : Type 0} (m : Eff A) (f : A → Eff B) (w : World) (b : B)
    → ((m >>= f) w).0 ≡ ok b
    → (a : A) × (v : World) × (m w ≡ (ok a, v)) × ((f a v).0 ≡ ok b)
bind_inv m f w b h = elim (outcome_cases (m w)) [
  | inl (a, v, e) ↦ (a, v, e, ap (λ x. x.0) (sym (bind_ok m f w v a e)) ∙ h)
  | inr (x, v, e) ↦ absurd (err_ne_ok x b (ap (λ y. y.0) (sym (bind_err m f w v x e)) ∙ h))
]
