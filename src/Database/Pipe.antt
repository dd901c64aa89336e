-- ===== src/Database/Pipe.antt =====
-- The pipe from a dump to a client and the retries (`_run_pipe` and `execute` of
-- services/worker/modules/postgres/handler.py and mysql/handler.py). The threads of a pipe run side by
-- side; here what the relay does comes first and then what the processes write to their standard errors.
use tmask_tt.Base.{
  ℕ, zero, suc, ◌+◌, String, ◌&&◌, Option, none, some, List, [], ◌∷◌, ◌++◌, ltb, truthy,
  if◌then◌else◌,
}
use tmask_tt.Base.Str.{join, rstrip}
use tmask_tt.Base.Text.{Text, codes}
use tmask_tt.Worker.{
  Result, ok, err, transfer_error, Eff, pure, raise, ◌>>=◌, ◌>>◌, when, catch, emit, ask, log, info,
  warn, started, slept, relayed, logged_text,
}
use tmask_tt.Worker.Params.{ExitCode, exited, is_code}
use tmask_tt.Database.Params.{Drivers}

-- What the relay makes of one line: the table that it warns of, and the line that goes on.
pub record Yield : Type 0 where
  pub warned_of : Option Text
  pub line : Option Text

-- The line goes on as it is, and with a warning.
abbrev pub goes_on : Text → Yield
goes_on line = record { warned_of = none; line = some line }

-- The text of the warning on a table without a masking profile.
unfoldable pub unmasked_text : Text → Text
unmasked_text table =
    codes "Tabela \""
    ++ (table ++ codes "\" przesłana BEZ maskowania — brak zdefiniowanego profilu")

unfoldable pub warn_of : Option Text → Eff (Unit {0})
unfolding unmasked_text
warn_of none = pure tt
warn_of (some table) = emit (logged_text warn (unmasked_text table))

-- `_drain`: the lines kept for the output.
unfoldable pub drain : List String → Eff (List String)
drain [] = pure []
drain (l ∷ ls) = do
  when (truthy (rstrip l)) (log info (rstrip l))
  kept ← drain ls
  pure (if truthy (rstrip l) then rstrip l ∷ kept else kept)

module _ (D : Drivers) where
  -- `stdin.write(line)`
  abbrev pub write_line : Option Text → Eff (Unit {0})
  write_line none = pure tt
  write_line (some line) = do ask (λ w. D.write w line); emit (relayed line)

  -- The loop over the lines of the dump: what `step` makes of each goes on before the next is read.
  unfoldable pub relay :
      {S : Type 0} → (S → Text → Result (S × Yield)) → S → List Text → Eff (Unit {0})
  unfolding warn_of
  relay step s [] = pure tt
  relay step s (l ∷ ls) = elim (step s l) [
    | err e ↦ raise e
    | ok (s', y) ↦ do warn_of y.warned_of; write_line y.line; relay step s' ls
  ]

  abbrev pub launch : List String → Eff (Unit {0})
  launch cmd = do emit (started cmd); ask (λ w. D.launch w cmd)

  -- `_run_pipe`: the codes of the dump and of the client, and the output. An exception in the relay
  -- ends its thread only.
  unfoldable pub run_pipe :
      {S : Type 0}
      → (S → Text → Result (S × Yield))
      → S
      → List String
      → List String
      → Eff (ExitCode × ExitCode × String)
  unfolding relay drain
  run_pipe step s dump_cmd client_cmd = do
    launch dump_cmd
    launch client_cmd
    lines ← ask (λ w. ok (D.dump w))
    catch (relay step s lines) (λ e. pure tt)
    messages ← ask (λ w. ok (D.messages w))
    kept ← drain messages
    exits ← ask (λ w. ok (D.exits w))
    pure (exits.0, exits.1, join "\n" kept)

-- The texts of a handler's messages.
pub record Wording : Type 0 where
  pub starting : ℕ → String
  pub retrying : ExitCode → ExitCode → String
  pub failed : ExitCode → ExitCode → String

-- PG_DUMP_MAX_RETRIES and PG_DUMP_RETRY_DELAY, and so for MySQL and SQL Server.
abbrev pub max_retries : ℕ
max_retries = 3

abbrev pub retry_delay : ℕ
retry_delay = 5

-- The loop of `execute`. `run` is the pipe, `check` the look at its output, and `verify` what follows
-- a success. `left` counts the attempts that remain.
module _ (texts : Wording) (run : Eff (ExitCode × ExitCode × String))
    (check : String → Eff (Unit {0})) (verify : Eff (Unit {0})) where
  unfoldable pub pause : ℕ → ExitCode → ExitCode → Eff (Unit {0})
  pause attempt dump_exit client_exit =
      when (ltb attempt max_retries)
        (do log warn (texts.retrying dump_exit client_exit); emit (slept retry_delay))

  abbrev pub succeed : Eff (Unit {0})
  succeed = do log info "Transfer complete"; verify

  unfoldable pub retry_loop : ℕ → ℕ → ExitCode × ExitCode → Eff (Unit {0})
  unfolding pause
  retry_loop zero attempt (dump_exit, client_exit) =
      raise (transfer_error (texts.failed dump_exit client_exit))
  retry_loop (suc left) attempt last = do
    log info (texts.starting attempt)
    (dump_exit, client_exit, output) ← run
    check output
    if is_code 0 dump_exit && is_code 0 client_exit then succeed else (do
      pause attempt dump_exit client_exit
      retry_loop left (attempt + 1) (dump_exit, client_exit))

  unfoldable pub with_retries : Eff (Unit {0})
  unfolding retry_loop
  with_retries = retry_loop max_retries 1 (exited 0, exited 0)
