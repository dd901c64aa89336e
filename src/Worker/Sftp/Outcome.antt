-- ===== src/Worker/Sftp/Outcome.antt =====
-- What a transfer over SFTP that is reported as complete has done
-- (services/worker/modules/sftp/handler.py).
use tmask_tt.Base.{
  ℕ, zero, suc, ◌+◌, ◌≡◌, ◌⊎◌, refl, ap, sym, ◌∙◌, String, ◌<>◌, ◌∷◌, Bool, true, false, arith,
  eq_iff, inl, inr, Bool-cases,
}
use tmask_tt.Base.Str.{strip, first_part, shell_quote}
use tmask_tt.Worker.{
  World, Result, Result-cases, ok, err, Exn, Eff, raise, pure, catch, finally, attempt, assign, ask,
  lift, emit, ◌>>=◌, opened, logged, info,
}
use tmask_tt.Worker.Params.{Params, Tools, ExitCode, is_code, is_given, or_text}
use tmask_tt.Worker.Effects.{outcome_cases, bind_inv}
use tmask_tt.Worker.Files.{compare_hashes, encrypt_file, gpg_outcome}
use tmask_tt.Worker.Sftp.{
  Client, Ssh, hash_output, build_client, verify_sftp, verify_checksum_sftp, report_calls, put_file,
  transfer_connected, transfer_once, attempts, prepare, execute_body, execute, forget_path,
  is_timeout, max_retries, pause, once_error, checksum_as_transfer_error,
}

-- A step whose errors are only renamed returned by itself.
pub catch_inv :
    {A : Type 0} (m : Eff A) (f : Exn → Exn) (w : World) (a : A)
    → (catch m (λ e. raise (f e)) w).0 ≡ ok a
    → (m w).0 ≡ ok a
unfolding catch raise
catch_inv m f w a h = elim (outcome_cases (m w)) [
  | inl (b, v, e) ↦ ground arith
  | inr (x, v, e) ↦ absurd (ground arith)
]

attempt_inv :
    {A : Type 0} (m : Eff A) (w w' : World) (r : Result A) → attempt m w ≡ (ok r, w') → (m w).0 ≡ r
unfolding attempt
attempt_inv m w w' r h = ground arith

err_ne_ok : (e : Exn) → err e ≡ ok (tt {0}) → ⊥
err_ne_ok e h = cc

pub hash_output_ok :
    (code : ExitCode) (out errors there : String) (w w' : World)
    → hash_output (code, out, errors) w ≡ (ok there, w')
    → (is_code 0 code ≡ true) × (first_part (strip out) ≡ there)
unfolding hash_output pure raise
hash_output_ok code out errors there w w' h = ground arith

pub compare_hashes_ok :
    (here away local remote : String) (w : World)
    → (compare_hashes here away local remote w).0 ≡ ok tt
    → local ≡ remote
unfolding compare_hashes raise
compare_hashes_ok here away local remote w h = ground (arith, eq_iff local remote)

module _ (T : Tools) (S : Ssh) (p : Params) where
  -- A file that was put without an error.
  abbrev pub HasPut : String → String → Type 0
  HasPut source dest = (w : World) × (client : Client) × ((S.put w client source dest).1 ≡ ok tt)

  -- The hash of the local file and the one that the host gave of the remote file are the same.
  abbrev pub HasVerified : String → String → Type 0
  HasVerified source dest =
      (v w : World) × (client : Client) × (hash : String) × (code : ExitCode) × (out
        errors : String)
      × (T.local_sha256 v source ≡ ok hash)
      × (S.exec_command w client ("sha256sum " <> shell_quote dest) ≡ ok (code, out, errors))
      × (is_code 0 code ≡ true)
      × (first_part (strip out) ≡ hash)

  put_file_ok :
      (client : Client) (source dest : String) (w : World)
      → (put_file T S p client source dest w).0 ≡ ok tt
      → HasPut source dest
  unfolding put_file ask lift
  put_file_ok client source dest w h =
      let (answer, w1, e1, h1) = bind_inv (ask (λ v. ok (S.put v client source dest))) _ w tt h in
      let (_, w2, e2, h2) = bind_inv (report_calls T S p answer.0) _ w1 tt h1 in
      (w, client, ground arith)

  verify_sftp_ok :
      (client : Client) (source dest : String) (w : World)
      → (verify_sftp T S p client source dest w).0 ≡ ok tt
      → HasVerified source dest
  unfolding verify_sftp ask
  verify_sftp_ok client source dest w h =
      let (local, w1, e1, h1) = bind_inv (ask (λ v. T.local_sha256 v source)) _ w tt h in
      let ((code, out, errors), w2, e2, h2) =
        bind_inv (ask (λ v. S.exec_command v client ("sha256sum " <> shell_quote dest))) _ w1 tt
          h1 in
      let (there, w3, e3, h3) = bind_inv (hash_output (code, out, errors)) _ w2 tt h2 in
      let (exited, same) = hash_output_ok code out errors there w2 w3 e3 in
      (
        w,
        w1,
        client,
        local,
        code,
        out,
        errors,
        ap (λ x. x.0) e1,
        ap (λ x. x.0) e2,
        exited,
        same ∙ sym (compare_hashes_ok "local" "remote" local there w3 h3),
      )

  verify_checksum_sftp_ok :
      (client : Client) (source dest : String) (w : World)
      → p.verify_checksum ≡ true
      → (verify_checksum_sftp T S p client source dest false w).0 ≡ ok tt
      → HasVerified source dest
  unfolding verify_checksum_sftp
  verify_checksum_sftp_ok client source dest w on h = verify_sftp_ok client source dest w (
      catch_inv (verify_sftp T S p client source dest) checksum_as_transfer_error w tt (rw on at h))

  -- What a whole transfer of a source to a destination has done: the file was put, and where the
  -- checksum is asked for and no gpg is used, it was compared.
  abbrev pub IsDone : String → String → Bool → Type 0
  IsDone source dest use_gpg =
      HasPut source dest
      × ((p.verify_checksum ≡ false) ⊎ (use_gpg ≡ true) ⊎ HasVerified source dest)

  verified :
      (client : Client) (source dest : String) (use_gpg : Bool) (w : World)
      → (verify_checksum_sftp T S p client source dest use_gpg w).0 ≡ ok tt
      → (p.verify_checksum ≡ false) ⊎ (use_gpg ≡ true) ⊎ HasVerified source dest
  verified client source dest true w h = inr (inl refl)
  verified client source dest false w h = elim (Bool-cases p.verify_checksum) [
    | inl on ↦ inr (inr (verify_checksum_sftp_ok client source dest w on h))
    | inr off ↦ inl off
  ]

  transfer_connected_ok :
      (client : Client) (source dest : String) (use_gpg : Bool) (w : World)
      → (transfer_connected T S p client source dest use_gpg w).0 ≡ ok tt
      → IsDone source dest use_gpg
  unfolding transfer_connected
  transfer_connected_ok client source dest use_gpg w h =
      let (_, w1, e1, h1) = bind_inv _ _ w tt h in
      let (_, w2, e2, h2) = bind_inv _ _ w1 tt h1 in
      let (_, w3, e3, h3) = bind_inv _ _ w2 tt h2 in
      let (_, w4, e4, h4) = bind_inv _ _ w3 tt h3 in
      let (_, w5, e5, h5) = bind_inv (put_file T S p client source dest) _ w4 tt h4 in
      let (_, w6, e6, h6) =
        bind_inv (verify_checksum_sftp T S p client source dest use_gpg) _ w5 tt h5 in
      (
        put_file_ok client source dest w4 (ap (λ x. x.0) e5),
        verified client source dest use_gpg w5 (ap (λ x. x.0) e6),
      )

  transfer_once_ok :
      (source dest : String) (use_gpg : Bool) (w : World)
      → (transfer_once T S p source dest use_gpg w).0 ≡ ok tt
      → IsDone source dest use_gpg
  unfolding transfer_once finally
  transfer_once_ok source dest use_gpg w h =
      let (client, w1, e1, h1) = bind_inv (build_client T S p) _ w tt h in
      let (_, w2, e2, h2) = bind_inv (emit (opened p.host)) _ w1 tt h1 in
      transfer_connected_ok client source dest use_gpg w2 (
        catch_inv (transfer_connected T S p client source dest use_gpg) (once_error source) w2 tt
          h2)

  attempts_ok :
      (source dest : String) (use_gpg : Bool) (left n : ℕ) (w : World)
      → (attempts T S p source dest use_gpg left n w).0 ≡ ok tt
      → IsDone source dest use_gpg
  unfolding attempts raise
  attempts_ok source dest use_gpg zero n w h = absurd (ground arith)
  attempts_ok source dest use_gpg (suc left) n w h =
      let (result, w1, e1, h1) =
        bind_inv (attempt (transfer_once T S p source dest use_gpg)) _ w tt h in
      elim (Result-cases result) [
        | inl (done, returned) ↦
            transfer_once_ok source dest use_gpg w (attempt_inv _ w w1 result e1 ∙ returned)
        | inr (e, raised) ↦ elim (Bool-cases (is_timeout e)) [
          | inl again ↦
              let (_, w2, e2, h2) =
                bind_inv (pause T S p n) (λ _. attempts T S p source dest use_gpg left (n + 1)) w1
                  tt (rw (raised, again) at h1) in
              attempts_ok source dest use_gpg left (n + 1) w2 h2
          | inr ended ↦ absurd (err_ne_ok e (rw (raised, ended) at h1))
        ]
      ]

  -- A file that gpg wrote from the source with the passphrase, and ended well.
  abbrev pub HasEncrypted : String → Type 0
  HasEncrypted copy =
      (v : World) × (code : ExitCode) × (stderr : String) × (T.gpg v p.source_path
          (or_text p.gpg_passphrase "") copy
        ≡ ok (code, stderr))
      × (is_code 0 code ≡ true)

  encrypt_file_ok :
      (path : String) (w : World)
      → (encrypt_file T p.source_path (or_text p.gpg_passphrase "") w).0 ≡ ok path
      → HasEncrypted path
  unfolding encrypt_file gpg_outcome
  encrypt_file_ok path w h =
      let made = T.temp_name w ".gpg" in
      let w' : World = record w { temps = made ∷ w.temps } in
      elim (Result-cases (T.gpg w' p.source_path (or_text p.gpg_passphrase "") made)) [
        | inl ((code, stderr), ran) ↦ (w', code, stderr, ground arith, ground arith)
        | inr (e, failed) ↦ absurd (ground arith)
      ]

  -- What `prepare` hands to the transfer.
  abbrev Prepared : Bool × String × String → Type 0
  Prepared (use_gpg, source, dest) =
      ((is_given p.gpg_passphrase ≡ false)
        × (use_gpg ≡ false)
        × (source ≡ p.source_path)
        × (dest ≡ p.destination_path))
      ⊎ ((is_given p.gpg_passphrase ≡ true)
          × (use_gpg ≡ true)
          × (dest ≡ (p.destination_path <> ".gpg"))
          × HasEncrypted source)

  prepare-Prepared :
      (w w' : World) (ready : Bool × String × String)
      → prepare T S p w ≡ (ok ready, w')
      → Prepared ready
  unfolding prepare ◌>>=◌ emit pure raise catch assign
  prepare-Prepared w w' ready h = elim (Bool-cases (is_given p.gpg_passphrase)) [
    | inr off ↦ inl (off, ground arith, ground arith, ground arith)
    | inl on ↦
        let w1 : World = record w { events = logged info "GPG: szyfrowanie pliku..." ∷ w.events } in
        elim (outcome_cases (encrypt_file T p.source_path (or_text p.gpg_passphrase "") w1)) [
          | inl (path, w2, e) ↦
              let copied = encrypt_file_ok path w1 (ap (λ x. x.0) e) in
              let same : ready.1 ≡ path = ground arith in
              inr (on, ground arith, ground arith, rw same copied)
          | inr (x, w2, e) ↦ absurd (ground arith)
        ]
  ]

  -- What a transfer that is reported as complete has done: without gpg the source was put at the
  -- destination, and with a checksum asked for the hashes were the same; with gpg a file that gpg
  -- wrote from the source with the passphrase was put at the destination with the suffix `.gpg`.
  abbrev pub IsTransferred : Type 0
  IsTransferred =
      ((is_given p.gpg_passphrase ≡ false) × IsDone p.source_path p.destination_path false)
      ⊎ ((is_given p.gpg_passphrase ≡ true)
          × (copy : String) × HasEncrypted copy
          × IsDone copy (p.destination_path <> ".gpg") true)

  execute_body_ok : (w : World) → (execute_body T S p w).0 ≡ ok tt → IsTransferred
  unfolding execute_body
  execute_body_ok w h =
      let ((use_gpg, source, dest), w1, e1, h1) = bind_inv (prepare T S p) _ w tt h in
      let done = attempts_ok source dest use_gpg max_retries 1 w1 h1 in
      elim (prepare-Prepared w w1 (use_gpg, source, dest) e1) [
        | inl (off, gpg, from, to) ↦ inl (off, rw (from, to, gpg) at done)
        | inr (on, gpg, to, copied) ↦ inr (on, source, copied, rw (to, gpg) at done)
      ]

  -- A transfer that the handler reports as complete has put the file: without gpg the source at the
  -- destination, and where a checksum is asked for, with equal hashes of the two; with gpg a
  -- file that gpg wrote from the source with the passphrase, and ended well, at the destination with the
  -- suffix `.gpg`.
  pub execute_ok : (w : World) → (execute T S p w).0 ≡ ok tt → IsTransferred
  unfolding execute finally
  execute_ok w h =
      let (_, w1, e1, h1) = bind_inv _ _ w tt h in
      let (_, w2, e2, h2) = bind_inv (assign forget_path) _ w1 tt h1 in execute_body_ok w2 h2
