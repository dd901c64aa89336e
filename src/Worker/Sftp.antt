-- ===== src/Worker/Sftp.antt =====
-- The SFTP handler (services/worker/modules/sftp/handler.py, config.py beside it) and the checksum it
-- asks for (services/worker/modules/checksum/handler.py, `verify_sftp`).
pub mod Cleanup
pub mod Outcome
pub mod Progress
use tmask_tt.Base.{
  ℕ, zero, suc, ◌+◌, String, ◌<>◌, Bool, true, false, ◌&&◌, ◌||◌, not, Option, none, some, List, [],
  ◌∷◌, ltb, str_eq, truthy, ◌==◌, if◌then◌else◌,
}
use tmask_tt.Base.Str.{show, has_part, strip, first_part, shell_quote}
use tmask_tt.Worker.{
  World, Result, ok, err, Exn, transfer_error, gpg_error, checksum_error, auth_error, timeout_error,
  file_not_found, os_error, ssh_error, message, Eff, pure, raise, raise_if, ◌>>=◌, ◌>>◌, when,
  catch, attempt, finally, ask, lift, assign, emit, log, info, warn, wrote, opened, closed, slept,
  progressed, remove, unlink_held,
}
use tmask_tt.Worker.Params.{Params, Tools, ExitCode, is_code, is_given, or_text, none_if_empty}
use tmask_tt.Worker.Files.{make_temp, load_private_key, encrypt_file, compare_hashes}

-- SFTP_TIMEOUT, SFTP_MAX_RETRIES, SFTP_RETRY_DELAY
abbrev pub connect_timeout : ℕ
connect_timeout = 30

abbrev pub max_retries : ℕ
max_retries = 3

abbrev pub retry_delay : ℕ
retry_delay = 5

-- An `SSHClient` as `_build_client` leaves it: the host keys that it loaded, and whether it rejects
-- every other one.
pub record Client : Type 0 where
  pub host_keys : Option String
  pub rejects_unknown : Bool

-- `connect_kwargs`
pub record ConnectArgs : Type 0 where
  pub hostname : String
  pub port : ℕ
  pub username : String
  pub timeout : ℕ
  pub pkey : Option String
  pub password : Option String

-- What paramiko is asked, each answer in the world as it is.
pub record Ssh : Type 0 where
  -- `client.load_host_keys` of a file with a text
  pub load_host_keys : World → String → Result (Unit {0})
  -- `client.connect(**connect_kwargs)`
  pub connect : World → Client → ConnectArgs → Result (Unit {0})
  -- `open_sftp` and `sftp.put(source, dest, callback)`: the calls of the callback, and the result
  pub put : World → Client → String → String → List (ℕ × ℕ) × Result (Unit {0})
  -- `exec_command`: the exit status, the output and the errors
  pub exec_command : World → Client → String → Result (ExitCode × String × String)
  -- `int(done / total * 100)` in floating point
  pub percent : ℕ → ℕ → ℕ

-- `_remote_sha256` on what the command left.
unfoldable pub hash_output : ExitCode × String × String → Eff String
hash_output (code, stdout, stderr) =
    if not (is_code 0 code) || not (truthy (strip stdout))
    then raise (checksum_error ("sha256sum failed: " <> strip stderr))
    else pure (first_part (strip stdout))

-- The `except` clauses of `_transfer_once`.
abbrev pub once_error : String → Exn → Exn
once_error source (timeout_error m) = timeout_error m
once_error source (file_not_found m) = transfer_error ("SOURCE NOT FOUND: " <> source)
once_error source (os_error m) = transfer_error (
    if has_part "No space" m then "INSUFFICIENT SPACE ON DESTINATION" else "TRANSFER ERROR — " <> m)
once_error source (auth_error m) = transfer_error ("SSH ERROR — " <> m)
once_error source (ssh_error m) = transfer_error ("SSH ERROR — " <> m)
once_error source e = e

-- `except paramiko.AuthenticationException`
abbrev pub connect_error : Exn → Exn
connect_error (auth_error m) = transfer_error "AUTH FAILED — check credentials"
connect_error e = e

-- `except ChecksumVerificationError` and `except GPGEncryptError`
abbrev pub checksum_as_transfer_error : Exn → Exn
checksum_as_transfer_error (checksum_error m) = transfer_error m
checksum_as_transfer_error e = e

abbrev pub gpg_as_transfer_error : Exn → Exn
gpg_as_transfer_error (gpg_error m) = transfer_error m
gpg_as_transfer_error e = e

-- `except (socket.timeout, socket.gaierror)`
abbrev pub is_timeout : Exn → Bool
is_timeout (timeout_error m) = true
is_timeout _ = false

abbrev hold_encrypted : Option String → Eff (Unit {0})
hold_encrypted path = assign (λ w. record w { encrypted_path = path })

-- The first statement and the `finally` block of `execute`.
abbrev pub forget_path : World → World
forget_path w = record w { encrypted_path = none }

unfoldable pub clean_up : World → World
unfolding unlink_held
clean_up w = record w { temps = unlink_held w.encrypted_path w.temps }

module _ (T : Tools) (S : Ssh) (p : Params) where
  -- The known hosts are loaded from a temporary file, which is removed whether this works or not, but is left
  -- where its text cannot be written.
  unfoldable pub load_known_hosts : Eff (Unit {0})
  unfolding make_temp remove
  load_known_hosts = do
    path ← make_temp T "_known_hosts"
    ask (λ w. T.write_temp w path p.known_host_key)
    emit (wrote path p.known_host_key)
    finally (ask (λ w. S.load_host_keys w p.known_host_key))
        (λ w. record w { temps = remove path w.temps })

  -- `_build_client`
  unfoldable pub build_client : Eff Client
  unfolding load_known_hosts
  build_client =
      if p.strict_host_key_checking
      then if not (truthy p.known_host_key)
        then raise
            (transfer_error "CONFIG ERROR — strict_host_key_checking requires known_host_key")
        else (do
          load_known_hosts
          pure (record { host_keys = some p.known_host_key; rejects_unknown = true }))
      else pure (record { host_keys = none; rejects_unknown = false })

  -- `_connect`: the key, when there is one, goes before the password.
  unfoldable pub connect_args : Result ConnectArgs
  connect_args =
      let args : ConnectArgs = record {
        hostname = p.host;
        port = p.port;
        username = p.username;
        timeout = connect_timeout;
        pkey = none;
        password = none;
      } in
      if truthy p.ssh_key
      then (elim (load_private_key T p.ssh_key (none_if_empty p.ssh_key_passphrase)) [
        | ok key ↦ ok (record args { pkey = some key })
        | err e ↦ err e
      ])
      else if truthy p.password
      then ok (record args { password = some p.password })
      else ok args

  unfoldable pub connect : Client → Eff (Unit {0})
  unfolding connect_args
  connect client = do args ← lift connect_args; ask (λ w. S.connect w client args)

  -- `verify_sftp`
  unfoldable pub verify_sftp : Client → String → String → Eff (Unit {0})
  unfolding hash_output compare_hashes
  verify_sftp client source remote = do
    local ← ask (λ w. T.local_sha256 w source)
    answer ← ask (λ w. S.exec_command w client ("sha256sum " <> shell_quote remote))
    there ← hash_output answer
    compare_hashes "local" "remote" local there

  -- `_verify_checksum_sftp`
  unfoldable pub verify_checksum_sftp : Client → String → String → Bool → Eff (Unit {0})
  unfolding verify_sftp
  verify_checksum_sftp client source dest use_gpg =
      if not p.verify_checksum
      then pure tt
      else if use_gpg
      then log warn "SHA-256: pomijane — GPG włączone (encrypted file)"
      else catch (verify_sftp client source dest) (λ e. raise (checksum_as_transfer_error e))

  -- The callback of `sftp.put`, over its calls: an empty file reports nothing.
  unfoldable pub report_calls : List (ℕ × ℕ) → Eff (Unit {0})
  report_calls [] = pure tt
  report_calls ((done, total) ∷ calls) = do
    when (not (total == 0)) (emit (progressed (S.percent done total)))
    report_calls calls

  -- `sftp.put`
  unfoldable pub put_file : Client → String → String → Eff (Unit {0})
  unfolding report_calls
  put_file client source dest = do
    answer ← ask (λ w. ok (S.put w client source dest))
    report_calls answer.0
    lift answer.1

  -- The `try` block of `_transfer_once`.
  unfoldable pub transfer_connected : Client → String → String → Bool → Eff (Unit {0})
  unfolding connect put_file verify_checksum_sftp
  transfer_connected client source dest use_gpg = do
    log info ("Connecting to " <> (p.host <> (":" <> show p.port)))
    catch (connect client) (λ e. raise (connect_error e))
    log info "Authentication OK"
    log info ("Transferring: " <> source)
    put_file client source dest
    verify_checksum_sftp client source dest use_gpg
    log info "Transfer complete"

  -- `client.close()` in the `finally` block.
  abbrev pub close : World → World
  close w = record w { events = closed ∷ w.events }

  -- `_transfer_once`
  unfoldable pub transfer_once : String → String → Bool → Eff (Unit {0})
  unfolding build_client transfer_connected
  transfer_once source dest use_gpg = do
    client ← build_client
    emit (opened p.host)
    finally
        (catch (transfer_connected client source dest use_gpg) (λ e. raise (once_error source e)))
        close

  abbrev pause : ℕ → Eff (Unit {0})
  pause n = when (ltb n max_retries) (do
    log warn ("Connection failed, retrying in " <> (show retry_delay <> "s..."))
    emit (slept retry_delay))

  -- The loop of `execute`, on the attempts left: it goes on after a timeout alone.
  unfoldable pub attempts : String → String → Bool → ℕ → ℕ → Eff (Unit {0})
  unfolding transfer_once
  attempts source dest use_gpg zero n =
      raise (transfer_error ("CONNECTION TIMEOUT — " <> (p.host <> " unreachable")))
  attempts source dest use_gpg (suc left) n = do
    result ← attempt (transfer_once source dest use_gpg)
    let again = pause n >> attempts source dest use_gpg left (n + 1)
    elim result [ ok done ↦ pure tt | err e ↦ if is_timeout e then again else raise e ]

  -- The source and the destination, and whether gpg is used; the path of the copy is kept for the
  -- `finally` block.
  unfoldable pub prepare : Eff (Bool × String × String)
  prepare =
      if is_given p.gpg_passphrase
      then (do
        log info "GPG: szyfrowanie pliku..."
        path ←
            catch (encrypt_file T p.source_path (or_text p.gpg_passphrase ""))
              (λ e. raise (gpg_as_transfer_error e))
        hold_encrypted (some path)
        pure (true, path, p.destination_path <> ".gpg"))
      else pure (false, p.source_path, p.destination_path)

  -- The `try` block of `execute`.
  unfoldable pub execute_body : Eff (Unit {0})
  execute_body = do (use_gpg, source, dest) ← prepare; attempts source dest use_gpg max_retries 1

  unfoldable pub execute : Eff (Unit {0})
  execute = do
    when (not (p.strict_host_key_checking && truthy p.known_host_key))
        (log warn "Host key verification DISABLED — connection is vulnerable to MITM")
    assign forget_path
    finally execute_body clean_up
