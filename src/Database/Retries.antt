-- ===== src/Database/Retries.antt =====
-- What a transfer that is reported as complete went through (services/worker/modules/postgres/handler.py
-- and mysql/handler.py, `execute`).
use tmask_tt.Base.{
  ℕ, zero, suc, ◌+◌, ◌≡◌, ap, ◌∙◌, String, Bool, true, ◌&&◌, List, ◌⊎◌, inl, inr, arith, Bool-cases,
}
use tmask_tt.Base.Text.{Text}
use tmask_tt.Worker.{World, Result, ok, err, Eff, pure, raise, log, info, when, ask, catch}
use tmask_tt.Worker.Params.{ExitCode, exited, is_code}
use tmask_tt.Worker.Effects.{bind_inv}
use tmask_tt.Database.Params.{DbParams, Drivers}
use tmask_tt.Database.Pipe.{
  Yield, Wording, run_pipe, launch, relay, drain, pause, retry_loop, with_retries, max_retries,
}
use tmask_tt.Database.Counts.{fetch_column_lengths}
use tmask_tt.Database.Postgres as Postgres
use tmask_tt.Database.Mysql as Mysql

and_true : (a b : Bool) → (a && b) ≡ true → (a ≡ true) × (b ≡ true)
and_true a b h = (ground arith, ground arith)

-- Both processes of a pipe ended with exit code 0.
abbrev pub BothEnded : ExitCode × ExitCode → Type 0
BothEnded (dump_exit, client_exit) = (is_code 0 dump_exit ≡ true) × (is_code 0 client_exit ≡ true)

module _ (texts : Wording) (run : Eff (ExitCode × ExitCode × String))
    (check : String → Eff (Unit {0})) (verify : Eff (Unit {0})) where
  -- A run of the pipe with these codes.
  abbrev pub HasRun : Type 0
  HasRun =
      (v : World) × (d : ExitCode) × (c : ExitCode) × (output : String) × ((run v).0
        ≡ ok (d, c, output))
      × BothEnded (d, c)

  retry_loop_ok :
      (left attempt : ℕ) (last : ExitCode × ExitCode) (w : World)
      → (retry_loop texts run check verify left attempt last w).0 ≡ ok tt
      → HasRun
  unfolding retry_loop raise
  retry_loop_ok zero attempt last w h = absurd (ground arith)
  retry_loop_ok (suc left) attempt last w h =
      let (_, w1, e1, h1) = bind_inv (log info _) _ w tt h in
      let ((d, c, output), w2, e2, h2) = bind_inv run _ w1 tt h1 in
      let (_, w3, e3, h3) = bind_inv (check output) _ w2 tt h2 in
      elim (Bool-cases (is_code 0 d && is_code 0 c)) [
        | inl ended ↦
            (w1, d, c, output, ap (λ x. x.0) e2, and_true (is_code 0 d) (is_code 0 c) ended)
        | inr failed ↦
            let (_, w4, e4, h4) =
              bind_inv (pause texts run check verify attempt d c)
                (λ _. retry_loop texts run check verify left (attempt + 1) (d, c)) w3 tt
                (rw failed at h3) in
            retry_loop_ok left (attempt + 1) (d, c) w4 h4
      ]

  with_retries_ok : (w : World) → (with_retries texts run check verify w).0 ≡ ok tt → HasRun
  unfolding with_retries
  with_retries_ok w h = retry_loop_ok max_retries 1 (exited 0, exited 0) w h

codes_of : ExitCode × ExitCode → Result (ExitCode × ExitCode × String) → ExitCode × ExitCode
codes_of other (ok (d, c, output)) = (d, c)
codes_of other (err e) = other

exits_of : ExitCode × ExitCode → Result (ExitCode × ExitCode) → ExitCode × ExitCode
exits_of other (ok exits) = exits
exits_of other (err e) = other

exits_same :
    (left exits : ExitCode × ExitCode) (d c : ExitCode) (text output : String)
    → ok left ≡ ok exits
    → ◌≡◌ {A = Result (ExitCode × ExitCode × String)}
        (ok (exits.0, exits.1, text))
        (ok (d, c, output))
    → left ≡ (d, c)
unfolding codes_of exits_of
exits_same left exits d c text output h k = ap (exits_of left) h ∙ ap (codes_of left) k

-- The exit codes of a pipe are those that its two processes left.
run_pipe_exits :
    {S : Type 0} (D : Drivers) (step : S → Text → Result (S × Yield)) (s : S)
    (dump_cmd client_cmd : List String) (w : World) (d c : ExitCode) (output : String)
    → (run_pipe D step s dump_cmd client_cmd w).0 ≡ ok (d, c, output)
    → (v : World) × (D.exits v ≡ (d, c))
unfolding run_pipe ask pure
run_pipe_exits D step s dump_cmd client_cmd w d c output h =
    let (_, w1, e1, h1) = bind_inv (launch D dump_cmd) _ w (d, c, output) h in
    let (_, w2, e2, h2) = bind_inv (launch D client_cmd) _ w1 (d, c, output) h1 in
    let (lines, w3, e3, h3) = bind_inv (ask (λ w. ok (D.dump w))) _ w2 (d, c, output) h2 in
    let (_, w4, e4, h4) =
      bind_inv (catch (relay D step s lines) (λ e. pure tt)) _ w3 (d, c, output) h3 in
    let (messages, w5, e5, h5) = bind_inv (ask (λ w. ok (D.messages w))) _ w4 (d, c, output) h4 in
    let (kept, w6, e6, h6) = bind_inv (drain messages) _ w5 (d, c, output) h5 in
    let (exits, w7, e7, h7) = bind_inv (ask (λ w. ok (D.exits w))) _ w6 (d, c, output) h6 in
    (w6, exits_same (D.exits w6) exits d c _ output (ap (λ x. x.0) e7) h7)

-- A run of both processes that ended with exit code 0.
abbrev pub HasEnded : Drivers → Type 0
HasEnded D = (v : World) × BothEnded (D.exits v)

postgres_execute_ok :
    (D : Drivers) (p : DbParams) (w : World) → (Postgres.execute D p w).0 ≡ ok tt → HasEnded D
unfolding Postgres.execute Postgres.run_dump
postgres_execute_ok D p w h =
    let (lengths, w1, e1, h1) = bind_inv (fetch_column_lengths D p) _ w tt h in
    let (v, d, c, output, ran, ended) =
      with_retries_ok Postgres.wording (Postgres.run_dump D p lengths) (Postgres.check_output p)
        (when p.verify_row_count (Postgres.verify_row_counts D p)) w1 h1 in
    let (u, same) = run_pipe_exits D _ _ _ _ v d c output ran in (u, rw same ended)

mysql_execute_ok :
    (D : Drivers) (p : DbParams) (w : World) → (Mysql.execute D p w).0 ≡ ok tt → HasEnded D
unfolding Mysql.execute Mysql.run_dump
mysql_execute_ok D p w h =
    let (lengths, w1, e1, h1) = bind_inv (fetch_column_lengths D p) _ w tt h in
    let (strips, w2, e2, h2) = bind_inv (Mysql.dest_needs_collation_strip D p) _ w1 tt h1 in
    let (v, d, c, output, ran, ended) =
      with_retries_ok Mysql.wording (Mysql.run_dump D p lengths strips) (Mysql.check_output p)
        (when p.verify_row_count (Mysql.verify_row_counts D p)) w2 h2 in
    let (u, same) = run_pipe_exits D _ _ _ _ v d c output ran in (u, rw same ended)

-- A transfer that the handler of PostgreSQL or that of MySQL reports as complete had a run of the pipe
-- in which both the dump and the client ended with exit code 0.
pub execute_ok :
    (D : Drivers) (p : DbParams) (w : World)
    → ((Postgres.execute D p w).0 ≡ ok tt) ⊎ ((Mysql.execute D p w).0 ≡ ok tt)
    → HasEnded D
execute_ok D p w (inl h) = postgres_execute_ok D p w h
execute_ok D p w (inr h) = mysql_execute_ok D p w h
