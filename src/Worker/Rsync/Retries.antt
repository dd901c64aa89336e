-- ===== src/Worker/Rsync/Retries.antt =====
-- The retries of the rsync handler (services/worker/modules/rsync/handler.py,
-- `_transfer_with_retries`) and its commands.
use tmask_tt.Base.{
  ℕ, zero, suc, ◌+◌, ◌≡◌, refl, ap, String, ◌<>◌, Bool, true, List, [], ◌∷◌, arith, inl, inr,
  Bool-cases,
}
use tmask_tt.Base.Str.{rstrip, join, show}
use tmask_tt.Worker.{World, ok, started, raise, pure, ◌>>=◌, log, info, emit, when, ask}
use tmask_tt.Worker.Params.{Params, Tools, Finished, ExitCode, exited, is_code}
use tmask_tt.Worker.Effects.{bind_inv}
use tmask_tt.Worker.Rsync.{
  max_retries, report_line, report_lines, run_attempt, check_rsync_output, retry_loop,
  transfer_with_retries, pause,
}

module _ (T : Tools) (p : Params) (cmd : List String) where
  -- A process of the command that ended well.
  abbrev pub HasRun : Type 0
  HasRun = (w : World) × (done : Finished) × (T.run w cmd ≡ ok done) × (is_code 0 done.code ≡ true)

  run_attempt-run :
      (b : Bool) (w w' : World) (code : ExitCode) (output : String)
      → run_attempt T p cmd b w ≡ (ok (code, output), w')
      → (v : World) × (done : Finished) × (T.run v cmd ≡ ok done) × (done.code ≡ code)
  unfolding run_attempt ask emit pure
  run_attempt-run b w w' code output e =
      let (_, w1, e1, h1) = bind_inv (emit (started cmd)) _ w (code, output) (ap (λ x. x.0) e) in
      let (done, w2, e2, h2) = bind_inv (ask (λ v. T.run v cmd)) _ w1 (code, output) h1 in
      let (kept, w3, e3, h3) = bind_inv (report_lines b done.lines) _ w2 (code, output) h2 in
      (w1, done, ap (λ x. x.0) e2, ground arith)

  retry_loop_ok :
      (left attempt : ℕ) (last : ExitCode) (w : World)
      → (retry_loop T p cmd left attempt last w).0 ≡ ok tt
      → HasRun
  unfolding retry_loop raise
  retry_loop_ok zero attempt last w h = absurd (ground arith)
  retry_loop_ok (suc left) attempt last w h =
      let (_, w1, e1, h1) = bind_inv (log info _) _ w tt h in
      let ((code, output), w2, e2, h2) = bind_inv (run_attempt T p cmd true) _ w1 tt h1 in
      let (_, w3, e3, h3) = bind_inv (check_rsync_output T p code output) _ w2 tt h2 in
      let (v, done, ran, same) = run_attempt-run true w1 w2 code output e2 in
      elim (Bool-cases (is_code 0 code)) [
        | inl ended ↦ (v, done, ran, rw same ended)
        | inr failed ↦
            let (_, w4, e4, h4) =
              bind_inv (pause T p attempt code) (λ _. retry_loop T p cmd left (attempt + 1) code) w3
                tt (rw failed at h3) in
            retry_loop_ok left (attempt + 1) code w4 h4
      ]

  -- The handler reports a transfer as complete only if one of its runs of the command exited with 0.
  pub transfer_with_retries_ok : (w : World) → (transfer_with_retries T p cmd w).0 ≡ ok tt → HasRun
  unfolding transfer_with_retries
  transfer_with_retries_ok w h = retry_loop_ok max_retries 1 (exited 0) w h

  -- The command exits with 0 whenever it is run.
  abbrev pub AlwaysRuns : Type 0
  AlwaysRuns = (w : World) → (done : Finished) × (T.run w cmd ≡ ok done) × (done.code ≡ exited 0)

  report_line-ok : (b : Bool) (line : String) (w : World) → (report_line b line w).0 ≡ ok tt
  unfolding report_line when emit pure
  report_line-ok b line w = ground arith

  report_lines-ok :
      (b : Bool) (lines : List String) (w : World)
      → (kept : List String) × ((report_lines b lines w).0 ≡ ok kept)
  unfolding report_lines ◌>>=◌ pure
  report_lines-ok b [] w = ([], refl)
  report_lines-ok b (line ∷ lines) w =
      let w' = (report_line b (rstrip line) w).1 in
      let (kept, e) = report_lines-ok b lines w' in
      (rstrip line ∷ kept, ground (arith, report_line-ok b (rstrip line) w, e))

  run_attempt-ok :
      AlwaysRuns
      → (b : Bool) (w : World)
      → (output : String) × ((run_attempt T p cmd b w).0 ≡ ok (exited 0, output))
  unfolding run_attempt ◌>>=◌ ask emit pure
  run_attempt-ok runs b w =
      let w' = (emit (started cmd) w).1 in
      let (done, ran, zero_code) = runs w' in
      let (kept, e) = report_lines-ok b done.lines w' in
      (join "\n" kept, ground (arith, ran, zero_code, e))

  -- A command that exits with 0 whenever it is run is a transfer that the handler reports as complete.
  pub transfer_with_retries_completes :
      AlwaysRuns → (w : World) → (transfer_with_retries T p cmd w).0 ≡ ok tt
  unfolding transfer_with_retries retry_loop ◌>>=◌ emit pure check_rsync_output
  transfer_with_retries_completes runs w =
      let w' = (log info ("Starting rsync (attempt " <> (show 1 <> ("): " <> join " " cmd))) w).1 in
      let (output, e) = run_attempt-ok runs true w' in ground (arith, e)
