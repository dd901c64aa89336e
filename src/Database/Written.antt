-- ===== src/Database/Written.antt =====
-- What a relay writes (`_relay` in `_run_pipe` of services/worker/modules/postgres/handler.py and
-- mysql/handler.py).
use mathlib.Core.List.{append_assoc, reverse, reverse-cons}
use tmask_tt.Base.{◌≡◌, refl, ap, ◌∙◌, inl, inr, Option, none, some, List, [], ◌∷◌, ◌++◌, arith}
use tmask_tt.Base.Text.{Text}
use tmask_tt.Worker.{
  World, Event, logged, progressed, started, slept, wrote, opened, closed, logged_text, relayed,
  wrote_line, Result, ok, err, Result-cases, ◌>>=◌, pure, raise, emit, ask,
}
use tmask_tt.Worker.Effects.{bind_ok}
use tmask_tt.Database.Params.{Drivers}
use tmask_tt.Database.Pipe.{Yield, relay, warn_of, write_line}

abbrev pub keep_line : Option Text → List Text → List Text
keep_line none ls = ls
keep_line (some l) ls = l ∷ ls

abbrev pub prepend : {S : Type 0} → Yield → Result (S × List Text) → Result (S × List Text)
prepend y (ok (s, ls)) = ok (s, keep_line y.line ls)
prepend y (err e) = err e

-- The lines that a relay lets through to its end, and its variables by then.
unfoldable pub lines_through :
    {S : Type 0} → (S → Text → Result (S × Yield)) → S → List Text → Result (S × List Text)
lines_through step s [] = ok (s, [])
lines_through step s (l ∷ ls) = elim (step s l) [
  | err e ↦ err e
  | ok (s', y) ↦ prepend y (lines_through step s' ls)
]

pub lines_through_cons :
    {S : Type 0} (step : S → Text → Result (S × Yield)) (s s' : S) (l : Text) (y : Yield)
    (ls : List Text)
    → step s l ≡ ok (s', y)
    → lines_through step s (l ∷ ls) ≡ prepend y (lines_through step s' ls)
unfolding lines_through
lines_through_cons step s s' l y ls e = rw (lines_through, e) refl

-- The lines written, the last one first.
abbrev pub relayed_lines : List Event → List Text
relayed_lines [] = []
relayed_lines (relayed line ∷ es) = line ∷ relayed_lines es
relayed_lines (logged level text ∷ es) = relayed_lines es
relayed_lines (progressed percent ∷ es) = relayed_lines es
relayed_lines (started cmd ∷ es) = relayed_lines es
relayed_lines (slept seconds ∷ es) = relayed_lines es
relayed_lines (wrote path text ∷ es) = relayed_lines es
relayed_lines (opened host ∷ es) = relayed_lines es
relayed_lines (closed ∷ es) = relayed_lines es
relayed_lines (logged_text level text ∷ es) = relayed_lines es
relayed_lines (wrote_line path line ∷ es) = relayed_lines es

-- The client takes every line.
abbrev pub TakesLines : Drivers → Type 0
TakesLines D = (w : World) (line : Text) → D.write w line ≡ ok tt

module _ (D : Drivers) where
  warn_of_lem :
      (o : Option Text) (w : World)
      → (w' : World) × (warn_of o w ≡ (ok tt, w'))
        × (relayed_lines w'.events ≡ relayed_lines w.events)
  unfolding warn_of emit pure
  warn_of_lem none w = (w, refl, refl)
  warn_of_lem (some table) w = (_, refl, refl)

  write_line_lem :
      TakesLines D
      → (o : Option Text) (w : World)
      → (w' : World) × (write_line D o w ≡ (ok tt, w'))
        × (relayed_lines w'.events ≡ keep_line o (relayed_lines w.events))
  unfolding emit pure ask ◌>>=◌
  write_line_lem takes none w = (w, refl, refl)
  write_line_lem takes (some line) w =
      (record w { events = relayed line ∷ w.events }, rw (takes w line) refl, refl)

  prepend_inv :
      {S : Type 0} (y : Yield) (s' : S) (out : List Text) (rest : Result (S × List Text))
      → prepend y rest ≡ ok (s', out)
      → (ls : List Text) × (rest ≡ ok (s', ls)) × (out ≡ keep_line y.line ls)
  prepend_inv y s' out (ok (s, ls)) h = (ls, cc, cc)
  prepend_inv y s' out (err e) h = absurd (ground arith)

  keep_line-reverse :
      (o : Option Text) (ls done : List Text)
      → reverse ls ++ keep_line o done ≡ reverse (keep_line o ls) ++ done
  keep_line-reverse none ls done = refl
  keep_line-reverse (some l) ls done =
      rw (reverse-cons l ls, append_assoc (reverse ls) (l ∷ []) done) refl

  -- Into a client that takes every line, the relay writes just the lines that it lets through, in
  -- their order.
  pub relay-lines_through :
      {S : Type 0} (step : S → Text → Result (S × Yield)) (s s' : S) (ls out : List Text)
      (w : World)
      → TakesLines D
      → lines_through step s ls ≡ ok (s', out)
      → ((relay D step s ls w).0 ≡ ok tt)
        × (relayed_lines (relay D step s ls w).1.events ≡ reverse out ++ relayed_lines w.events)
  unfolding relay lines_through pure raise
  relay-lines_through step s s' [] out w takes h = (refl, ground arith)
  relay-lines_through step s s' (l ∷ ls) out w takes h = elim (Result-cases (step s l)) [
    | inr (e, raised) ↦ absurd (ground arith)
    | inl ((s1, y), went) ↦
        let (outs, rest, same) =
          prepend_inv y s' out (lines_through step s1 ls) (rw (lines_through, went) at h) in
        let (w1, warned, k1) = warn_of_lem y.warned_of w in
        let (w2, written, k2) = write_line_lem takes y.line w1 in
        let (done, lines) = relay-lines_through step s1 s' ls outs w2 takes rest in
        let runs : relay D step s (l ∷ ls) w ≡ relay D step s1 ls w2 =
          rw (relay, went)
            (bind_ok (warn_of y.warned_of) _ w w1 tt warned
              ∙ bind_ok (write_line D y.line) (λ _. relay D step s1 ls) w1 w2 tt written) in
        let kept =
          lines
          ∙ ap (λ before. reverse outs ++ before) (k2 ∙ ap (keep_line y.line) k1)
          ∙ keep_line-reverse y.line outs (relayed_lines w.events) in
        rw (runs, same) (done, kept)
  ]
