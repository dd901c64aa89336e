-- ===== src/Worker/Starts.antt =====
-- Rules for the parts of a handler: how often a step starts rsync (services/worker/modules/rsync/handler.py).
use tmask_tt.Base.{ℕ, String, ◌+◌, ◌≤◌, Bool, true, false, List, [], ◌∷◌, arith, if◌then◌else◌}
use tmask_tt.Worker.{
  World, Result, ok, err, Exn, Event, Level, Eff, started, logged, pure, raise, raise_if, ◌>>=◌,
  catch, when, emit, ask, lift, assign,
}

-- How many of the events are a start of rsync.
abbrev pub starts : Event → ℕ
starts (started cmd) = 1
starts _ = 0

unfoldable pub starts_in : List Event → ℕ
starts_in [] = 0
starts_in (e ∷ es) = starts e + starts_in es

-- A step that starts rsync at most so often.
pub record Starts {A : Type 0} (n : ℕ) (m : Eff A) : Type 0 where
  pub bound : (w : World) → starts_in (m w).1.events ≤ n + starts_in w.events

module _ {A : Type 0} where
  pub pure-Starts : (a : A) → Starts 0 (pure a)
  unfolding pure
  pure-Starts a = record { bound = λ w. omega arith }

  pub raise-Starts : (e : Exn) → Starts 0 (raise {A = A} e)
  unfolding raise
  raise-Starts e = record { bound = λ w. omega arith }

  pub lift-Starts : (r : Result A) → Starts 0 (lift r)
  unfolding lift
  lift-Starts r = record { bound = λ w. omega arith }

  pub ask-Starts : (f : World → Result A) → Starts 0 (ask f)
  unfolding ask
  ask-Starts f = record { bound = λ w. omega arith }

  pub if-Starts :
      (b : Bool) {n : ℕ} {m m' : Eff A} → Starts n m → Starts n m' → Starts n (if b then m else m')
  if-Starts true h h' = h
  if-Starts false h h' = h'

  pub weaken : {n k : ℕ} {m : Eff A} → n ≤ k → Starts n m → Starts k m
  weaken le h = record { bound = λ w. omega (arith, le, h.bound w) }

  pub catch-Starts :
      {m : Eff A} {h : Exn → Eff A}
      → Starts 0 m
      → ((e : Exn) → Starts 0 (h e))
      → Starts 0 (catch m h)
  unfolding catch
  catch-Starts {m} {h} hm hh = record { bound = λ w. go (m w).0 (m w).1 w (hm.bound w) }
    where
      go :
          (r : Result A) (w' w : World)
          → starts_in w'.events ≤ 0 + starts_in w.events
          → starts_in
              (elim r as (λ _. Result A × World) [ ok a ↦ (ok a, w') | err e ↦ h e w' ]).1.events
            ≤ 0 + starts_in w.events
      go (ok a) w' w k = k
      go (err e) w' w k = omega (arith, (hh e).bound w', k)

pub emit-Starts : (e : Event) → Starts (starts e) (emit e)
unfolding emit starts_in
emit-Starts e = record { bound = λ w. omega arith }

pub log-Starts : (level : Level) (text : String) → Starts 0 (emit (logged level text))
log-Starts level text = emit-Starts (logged level text)

pub assign_path-Starts :
    (f : World → World)
    → ((w : World) → starts_in (f w).events ≤ starts_in w.events)
    → Starts 0 (assign f)
unfolding assign
assign_path-Starts f h = record { bound = λ w. omega (arith, h w) }

pub raise_if-Starts : (b : Bool) (e : Exn) → Starts 0 (raise_if b e)
unfolding raise_if
raise_if-Starts b e = record { bound = λ w. omega arith }

pub when-Starts :
    (b : Bool) {n : ℕ} {m : Eff (Unit {0})} → Starts n m → Starts (if b then n else 0) (when b m)
unfolding when pure
when-Starts true h = h
when-Starts false h = record { bound = λ w. omega arith }

pub bind-Starts :
    {A B : Type 0} {n k : ℕ} {m : Eff A} {f : A → Eff B}
    → Starts n m
    → ((a : A) → Starts k (f a))
    → Starts (n + k) (m >>= f)
unfolding ◌>>=◌
bind-Starts {A} {B} {n} {k} {m} {f} hm hf = record {
  bound = λ w. go (m w).0 (m w).1 w (hm.bound w);
}
  where
    go :
        (r : Result A) (w' w : World)
        → starts_in w'.events ≤ n + starts_in w.events
        → starts_in
            (elim r as (λ _. Result B × World) [ ok a ↦ f a w' | err e ↦ (err e, w') ]).1.events
          ≤ (n + k) + starts_in w.events
    go (ok a) w' w h = omega (arith, (hf a).bound w', h)
    go (err e) w' w h = omega (arith, h)

-- A chain of a step that starts nothing.
pub quiet :
    {A B : Type 0} {k : ℕ} {m : Eff A} {f : A → Eff B}
    → Starts 0 m
    → ((a : A) → Starts k (f a))
    → Starts k (m >>= f)
quiet hm hf = weaken (omega arith) (bind-Starts hm hf)

-- With these `search` proves it of a `do` block that starts nothing.
pub ruleset quietly = (
  quiet, pure-Starts, raise-Starts, lift-Starts, ask-Starts, if-Starts, catch-Starts,
  raise_if-Starts, log-Starts,
)
