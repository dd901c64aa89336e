-- ===== src/Worker/Rsync.antt =====
-- The rsync handler (services/worker/modules/rsync/handler.py, config.py beside it).
mod Command
pub mod Preview
pub mod Cleanup
pub mod Retries
pub mod Attempts
unfoldable pub use Command.*
use tmask_tt.Base.{
  ℕ, zero, suc, ◌+◌, ◌-◌, ◌≤◌, String, ◌<>◌, Bool, true, false, ◌&&◌, ◌||◌, not, Option, none, some,
  List, [], ◌∷◌, ◌++◌, leb, ltb, truthy, is_some, if◌then◌else◌,
}
use tmask_tt.Base.Text.{codes}
use tmask_tt.Base.Str.{join, show, shell_quote, has_part, rstrip}
use tmask_tt.Worker.{
  World, Result, ok, err, Exn, transfer_error, value_error, gpg_error, checksum_error, message, Eff,
  pure, raise, raise_if, ◌>>=◌, ◌>>◌, when, catch, attempt, finally, ask, lift, assign, emit, log,
  info, warn, wrote, started, slept, progressed, unlink_held,
}
use tmask_tt.Worker.Params.{
  Params, Tools, Finished, ExitCode, exited, show_code, is_code, is_ssh_error, or_text, is_given,
  none_if_empty,
}
use tmask_tt.Worker.Progress.{parse_progress}
use tmask_tt.Worker.Files.{make_temp, load_private_key, encrypt_file, verify_rsync}

-- RSYNC_MAX_RETRIES, RSYNC_RETRY_DELAY
abbrev pub max_retries : ℕ
max_retries = 3

abbrev pub retry_delay : ℕ
retry_delay = 5

abbrev pub host_key_warning : String
host_key_warning = "Host key verification DISABLED — connection is vulnerable to MITM"

-- One line of the output: a progress line goes to the progress callback, if there is one, and any
-- other line that is not empty to the log.
unfoldable pub report_line : Bool → String → Eff (Unit {0})
report_line with_progress line = elim (parse_progress (codes line)) [
  | some percent ↦ when with_progress (emit (progressed percent))
  | none ↦ when (truthy line) (log info line)
]

-- The loop of `_run_attempt`, with the lines kept for the output.
unfoldable pub report_lines : Bool → List String → Eff (List String)
unfolding report_line
report_lines with_progress [] = pure []
report_lines with_progress (line ∷ lines) = do
  report_line with_progress (rstrip line)
  kept ← report_lines with_progress lines
  pure (rstrip line ∷ kept)

-- `except ChecksumVerificationError as e: raise RsyncTransferError(str(e))`
abbrev as_transfer_error : Exn → Exn
as_transfer_error (checksum_error m) = transfer_error m
as_transfer_error e = e

-- `except GPGEncryptError as e: raise RsyncTransferError(str(e))`
abbrev gpg_as_transfer_error : Exn → Exn
gpg_as_transfer_error (gpg_error m) = transfer_error m
gpg_as_transfer_error e = e

-- The assignments of `execute` that its `finally` block reads.
abbrev pub hold_known_hosts : Option String → Eff (Unit {0})
hold_known_hosts path = assign (λ w. record w { known_hosts_path = path })

abbrev pub hold_ssh_key : Option String → Eff (Unit {0})
hold_ssh_key path = assign (λ w. record w { ssh_key_path = path })

abbrev pub hold_encrypted : Option String → Eff (Unit {0})
hold_encrypted path = assign (λ w. record w { encrypted_path = path })

-- The first statements of `execute`.
abbrev pub forget_paths : World → World
forget_paths w = record w { encrypted_path = none; known_hosts_path = none; ssh_key_path = none }

-- The `finally` blocks of `execute` and `preview`.
unfoldable pub clean_up : World → World
unfolding unlink_held
clean_up w = record w {
  temps =
      unlink_held w.ssh_key_path
        (unlink_held w.known_hosts_path (unlink_held w.encrypted_path w.temps));
}

module _ (T : Tools) (p : Params) where
  -- `_run_attempt`
  unfoldable pub run_attempt : List String → Bool → Eff (ExitCode × String)
  unfolding report_lines
  run_attempt cmd with_progress = do
    emit (started cmd)
    done ← ask (λ w. T.run w cmd)
    kept ← report_lines with_progress done.lines
    pure (done.code, join "\n" kept)

  -- `_check_rsync_output`
  unfoldable pub check_rsync_output : ExitCode → String → Eff (Unit {0})
  check_rsync_output code output =
      if is_code 0 code
      then pure tt
      else if has_part "Permission denied" output || is_code 255 code
      then raise (transfer_error "AUTH FAILED — check credentials")
      else if has_part "No space left" output
      then raise (transfer_error "INSUFFICIENT SPACE ON DESTINATION")
      else if has_part "No such file" output
      then raise (transfer_error ("SOURCE NOT FOUND: " <> p.source_path))
      else pure tt

  -- `_setup_known_hosts`
  unfoldable pub setup_known_hosts : Eff (Option String)
  unfolding make_temp
  setup_known_hosts =
      if p.strict_host_key_checking && truthy p.known_host_key
      then (do
        path ← make_temp T "_known_hosts"
        ask (λ w. T.write_temp w path p.known_host_key)
        emit (wrote path p.known_host_key)
        pure (some path))
      else (do log warn host_key_warning; pure none)

  -- The rest of `_setup_ssh_key`, on what loading the key came to.
  unfoldable pub write_key : Result String → Eff (Option String)
  unfolding make_temp
  write_key (ok key) = do
    path ← make_temp T "_ssh_key"
    ask (λ w. T.write_temp w path key)
    emit (wrote path key)
    pure (some path)
  write_key (err e) =
      raise (if is_ssh_error e then transfer_error ("SSH KEY ERROR — " <> message e) else e)

  -- `_setup_ssh_key`
  unfoldable pub setup_ssh_key : Eff (Option String)
  unfolding write_key
  setup_ssh_key =
      if truthy p.ssh_key
      then write_key (load_private_key T p.ssh_key (none_if_empty p.ssh_key_passphrase))
      else pure none

  -- `_encrypt_source_if_needed`: whether gpg is used, and the encrypted path, which is the source of the
  -- transfer; the destination gets the suffix `.gpg`.
  unfoldable pub encrypt_source_if_needed : Eff (Bool × Option String × Option String)
  encrypt_source_if_needed =
      if p.encrypt && is_given p.gpg_passphrase
      then (do
        log info "GPG: szyfrowanie pliku..."
        path ← encrypt_file T p.source_path (or_text p.gpg_passphrase "")
        pure (true, some path, some (p.destination_path <> ".gpg")))
      else pure (false, none, none)

  -- `_run_dry_run_precheck`
  unfoldable pub run_dry_run_precheck :
      Option String → Option String → Option String → Option String → Eff (Unit {0})
  unfolding build_command run_attempt check_rsync_output
  run_dry_run_precheck source dest known key = do
    log info "Dry-run: sprawdzam transfer..."
    cmd ← lift (build_command p source dest known key true)
    done ← run_attempt cmd false
    check_rsync_output done.0 done.1
    raise_if (not (is_code 0 done.0))
        (transfer_error ("DRY-RUN FAILED (exit " <> (show_code done.0 <> ") — transfer anulowany")))
    log info "Dry-run OK — kontynuuję transfer"

  -- `_verify_checksum_if_needed`
  unfoldable pub verify_checksum_if_needed :
      Bool → Option String → Option String → Option String → Option String → Eff (Unit {0})
  unfolding build_ssh_cmd_prefix verify_rsync
  verify_checksum_if_needed use_gpg source dest known key =
      if not p.verify_checksum
      then pure tt
      else if use_gpg
      then log warn "SHA-256: pomijane — GPG włączone (encrypted file)"
      else catch
          (do
            prefix ← lift (build_ssh_cmd_prefix p known key)
            verify_rsync T (or_text source p.source_path) prefix (or_text dest p.destination_path))
          (λ e. raise (as_transfer_error e))

  -- The pause between two attempts.
  abbrev pause : ℕ → ExitCode → Eff (Unit {0})
  pause attempt code = when (ltb attempt max_retries) (do
    log warn (
        "rsync failed (exit "
        <> (show_code code <> ("), retrying in " <> (show retry_delay <> "s..."))))
    emit (slept retry_delay))

  -- The loop of `_transfer_with_retries`, on the attempts left.
  unfoldable pub retry_loop : List String → ℕ → ℕ → ExitCode → Eff (Unit {0})
  unfolding run_attempt check_rsync_output
  retry_loop cmd zero attempt last = raise (
      transfer_error (
        "TRANSFER FAILED — rsync failed after "
        <> (show max_retries <> (" attempts (last exit code: " <> (show_code last <> ")")))))
  retry_loop cmd (suc left) attempt last = do
    log info ("Starting rsync (attempt " <> (show attempt <> ("): " <> join " " cmd)))
    done ← run_attempt cmd true
    check_rsync_output done.0 done.1
    let again = pause attempt done.0 >> retry_loop cmd left (attempt + 1) done.0
    if is_code 0 done.0 then log info "Transfer complete" else again

  unfoldable pub transfer_with_retries : List String → Eff (Unit {0})
  unfolding retry_loop
  transfer_with_retries cmd = retry_loop cmd max_retries 1 (exited 0)

  -- The part of `execute` behind the set-up.
  unfoldable pub transfer_prepared :
      Option String → Option String → Bool × Option String × Option String → Eff (Unit {0})
  unfolding run_dry_run_precheck build_command transfer_with_retries verify_checksum_if_needed
  transfer_prepared known key (use_gpg, source, dest) = do
    when p.dry_run (run_dry_run_precheck source dest known key)
    cmd ← lift (build_command p source dest known key false)
    transfer_with_retries cmd
    verify_checksum_if_needed use_gpg source dest known key

  unfoldable pub set_up :
      Eff (Option String × Option String × (Bool × Option String × Option String))
  set_up = do
    known ← setup_known_hosts
    hold_known_hosts known
    key ← setup_ssh_key
    hold_ssh_key key
    enc ← catch encrypt_source_if_needed (λ e. raise (gpg_as_transfer_error e))
    hold_encrypted enc.1
    pure (known, key, enc)

  unfoldable pub execute_body : Eff (Unit {0})
  execute_body = do ready ← set_up; transfer_prepared ready.0 ready.1 ready.2

  unfoldable pub execute : Eff (Unit {0})
  execute w = finally execute_body clean_up (forget_paths w)
