-- ===== src/Worker/Rsync/Attempts.antt =====
-- How often the rsync handler runs rsync (services/worker/modules/rsync/handler.py, `execute` and
-- `_transfer_with_retries`).
use tmask_tt.Base.{
  ℕ, zero, suc, ◌+◌, ◌≤◌, String, Bool, true, false, Option, none, List, [], ◌∷◌, arith,
  if◌then◌else◌,
}
use tmask_tt.Base.Str.{rstrip}
use tmask_tt.Worker.{ask, World, Result, ok, err, pure, raise, ◌>>=◌, when, emit, finally}
use tmask_tt.Worker.Params.{Params, Tools, ExitCode, exited}
use tmask_tt.Worker.Files.{
  make_temp, encrypt_file, gpg_outcome, verify_rsync, remote_hash, compare_hashes,
}
use tmask_tt.Worker.Rsync.{
  max_retries, report_line, report_lines, run_attempt, check_rsync_output, retry_loop,
  transfer_with_retries, write_key, setup_known_hosts, setup_ssh_key, encrypt_source_if_needed,
  run_dry_run_precheck, verify_checksum_if_needed, transfer_prepared, set_up, execute_body, execute,
  clean_up, forget_paths, pause,
}
use tmask_tt.Worker.Starts.{
  starts_in, Starts, pure-Starts, raise-Starts, lift-Starts, ask-Starts, if-Starts, weaken,
  catch-Starts, emit-Starts, assign_path-Starts, raise_if-Starts, when-Starts, bind-Starts, quiet,
  quietly,
}

report_line-Starts : (b : Bool) (line : String) → Starts 0 (report_line b line)
unfolding report_line when emit pure starts_in
report_line-Starts b line = record { bound = λ w. ground arith }

report_lines-Starts : (b : Bool) (lines : List String) → Starts 0 (report_lines b lines)
unfolding report_lines
report_lines-Starts b [] = pure-Starts []
report_lines-Starts b (line ∷ lines) =
    quiet (report_line-Starts b (rstrip line))
      (λ _. quiet (report_lines-Starts b lines) (λ kept. pure-Starts _))

remote_hash-Starts : (answer : ExitCode × String × String) → Starts 0 (remote_hash answer)
unfolding remote_hash
remote_hash-Starts answer = search quietly

compare_hashes-Starts :
    (here there local remote : String) → Starts 0 (compare_hashes here there local remote)
unfolding compare_hashes
compare_hashes-Starts here there local remote = search quietly

module _ (T : Tools) (p : Params) where
  run_attempt-Starts : (cmd : List String) (b : Bool) → Starts 1 (run_attempt T p cmd b)
  unfolding run_attempt
  run_attempt-Starts cmd b = bind-Starts (emit-Starts _) (λ _.
      quiet (ask-Starts _)
        (λ done. quiet (report_lines-Starts b done.lines) (λ kept. pure-Starts _)))

  check_rsync_output-Starts :
      (code : ExitCode) (output : String) → Starts 0 (check_rsync_output T p code output)
  unfolding check_rsync_output
  check_rsync_output-Starts code output = search quietly depth 10

  pause-Starts : (attempt : ℕ) (code : ExitCode) → Starts 0 (pause T p attempt code)
  unfolding when emit ◌>>=◌ pure starts_in
  pause-Starts attempt code = record { bound = λ w. ground arith }

  -- The loop runs the command at most once for each attempt left.
  retry_loop-Starts :
      (cmd : List String) (left attempt : ℕ) (last : ExitCode)
      → Starts left (retry_loop T p cmd left attempt last)
  unfolding retry_loop
  retry_loop-Starts cmd zero attempt last = raise-Starts _
  retry_loop-Starts cmd (suc left) attempt last = quiet (emit-Starts _) (λ _. weaken (omega arith) (
      bind-Starts (run_attempt-Starts cmd true) (λ done.
        quiet (check_rsync_output-Starts done.0 done.1) (λ _.
          if-Starts _ (weaken (omega arith) (emit-Starts _)) (
            quiet (pause-Starts attempt done.0)
              (λ _. retry_loop-Starts cmd left (attempt + 1) done.0))))))

  run_dry_run_precheck-Starts :
      (source dest known key : Option String)
      → Starts 1 (run_dry_run_precheck T p source dest known key)
  unfolding run_dry_run_precheck
  run_dry_run_precheck-Starts source dest known key = quiet (emit-Starts _) (λ _.
      quiet (lift-Starts _) (λ cmd. bind-Starts (run_attempt-Starts cmd false) (λ done.
        quiet (check_rsync_output-Starts done.0 done.1)
          (λ _. quiet (raise_if-Starts _ _) (λ _. emit-Starts _)))))

  encrypt_source_if_needed-Starts : Starts 0 (encrypt_source_if_needed T p)
  unfolding encrypt_source_if_needed encrypt_file make_temp remote_hash gpg_outcome ◌>>=◌ emit pure
      starts_in
  encrypt_source_if_needed-Starts = record { bound = λ w. ground arith }

  setup_known_hosts-Starts : Starts 0 (setup_known_hosts T p)
  unfolding setup_known_hosts make_temp ◌>>=◌ emit pure ask starts_in
  setup_known_hosts-Starts = record { bound = λ w. ground arith }

  write_key-Starts : (r : Result String) → Starts 0 (write_key T p r)
  unfolding write_key make_temp ◌>>=◌ emit pure raise ask starts_in
  write_key-Starts (ok key) = record { bound = λ w. ground arith }
  write_key-Starts (err e) = raise-Starts _

  setup_ssh_key-Starts : Starts 0 (setup_ssh_key T p)
  unfolding setup_ssh_key
  setup_ssh_key-Starts = if-Starts _ (write_key-Starts _) (pure-Starts none)

  verify_checksum_if_needed-Starts :
      (g : Bool) (source dest known key : Option String)
      → Starts 0 (verify_checksum_if_needed T p g source dest known key)
  unfolding verify_checksum_if_needed verify_rsync
  verify_checksum_if_needed-Starts g source dest known key =
      search (quietly, remote_hash-Starts, compare_hashes-Starts) depth 12

  transfer_prepared-Starts :
      (known key : Option String) (ready : Bool × Option String × Option String)
      → Starts ((if p.dry_run then 1 else 0) + max_retries) (transfer_prepared T p known key ready)
  unfolding transfer_prepared transfer_with_retries
  transfer_prepared-Starts known key (g, source, dest) =
      bind-Starts (when-Starts p.dry_run (run_dry_run_precheck-Starts source dest known key)) (λ _.
        quiet (lift-Starts _) (λ cmd.
          bind-Starts (retry_loop-Starts cmd max_retries 1 (exited 0))
            (λ _. verify_checksum_if_needed-Starts g source dest known key)))

  set_up-Starts : Starts 0 (set_up T p)
  unfolding set_up
  set_up-Starts = quiet setup_known_hosts-Starts (λ known.
      quiet (assign_path-Starts _ (λ w. omega arith)) (λ _. quiet setup_ssh_key-Starts (λ key.
        quiet (assign_path-Starts _ (λ w. omega arith)) (λ _.
          quiet (catch-Starts encrypt_source_if_needed-Starts (λ e. raise-Starts _))
            (λ enc. quiet (assign_path-Starts _ (λ w. omega arith)) (λ _. pure-Starts _))))))

  -- Whatever the tools answer, the handler comes to its end after at most three runs of the command, with one
  -- more before them where a dry run is asked for.
  pub execute_runs_bound :
      (w : World)
      → starts_in (execute T p w).1.events
        ≤ (if p.dry_run then 1 else 0) + max_retries + starts_in w.events
  unfolding execute execute_body finally clean_up
  execute_runs_bound w =
      (quiet set_up-Starts (λ ready. transfer_prepared-Starts ready.0 ready.1 ready.2)).bound
        (forget_paths w)
