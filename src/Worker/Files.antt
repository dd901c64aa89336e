-- ===== src/Worker/Files.antt =====
-- The steps that the handlers share: private keys (services/worker/modules/ssh_keys.py), encryption
-- (services/worker/modules/gpg/handler.py) and checksums
-- (services/worker/modules/checksum/handler.py).
use tmask_tt.Base.{String, ◌<>◌, true, false, Option, List, [], ◌∷◌, ◌++◌, str_eq, if◌then◌else◌}
use tmask_tt.Base.Str.{shell_quote, strip, first_part, take_text}
use tmask_tt.Worker.{
  Result, ok, err, Exn, gpg_error, checksum_error, timeout_expired, file_not_found, other_error,
  message, Eff, pure, raise, ◌>>=◌, ask, log, info, remove,
}
use tmask_tt.Worker.Params.{
  Tools, KeyClass, rsa, ed25519, ecdsa, dss, ExitCode, is_code, is_ssh_error,
}

-- The file that `tempfile` makes for a suffix, by its path.
unfoldable pub make_temp : Tools → String → Eff String
make_temp T suffix w =
    let path = T.temp_name w suffix in (ok path, record w { temps = path ∷ w.temps })

-- The loop of `load_private_key`: the first class that reads the key, or the last SSH error.
unfoldable pub load_key_with : Tools → List KeyClass → Exn → String → Option String → Result String
load_key_with T [] last key passphrase = err last
load_key_with T (c ∷ classes) last key passphrase = elim (T.from_private_key c key passphrase) [
  | ok k ↦ ok k
  | err e ↦ elim (is_ssh_error e) [
    | true ↦ load_key_with T classes e key passphrase
    | false ↦ err e
  ]
]

-- `load_private_key`; the list of classes is not empty, so the first exception is never raised.
unfoldable pub load_private_key : Tools → String → Option String → Result String
unfolding load_key_with
load_private_key T = load_key_with T (rsa ∷ ed25519 ∷ ecdsa ∷ dss ∷ []) (other_error "")

-- The handlers of `encrypt_file` for what running gpg raises.
abbrev gpg_failure : Exn → Exn
gpg_failure (gpg_error m) = gpg_error m
gpg_failure (timeout_expired m) = gpg_error "GPG TIMEOUT — encryption took too long"
gpg_failure (file_not_found m) = gpg_error "GPG NOT INSTALLED — install gnupg package"
gpg_failure e = gpg_error ("GPG ERROR — " <> message e)

-- What gpg's run comes to: nothing, or a `GPGEncryptError`.
unfoldable pub gpg_outcome : Result (ExitCode × String) → Result (Unit {0})
gpg_outcome (ok (code, stderr)) =
    if is_code 0 code then ok tt else err (gpg_error ("GPG FAILED — " <> strip stderr))
gpg_outcome (err e) = err (gpg_failure e)

-- `encrypt_file`: the path of the encrypted copy, which is removed again where gpg fails.
unfoldable pub encrypt_file : Tools → String → String → Eff String
unfolding make_temp gpg_outcome remove
encrypt_file T source passphrase w =
    let path = T.temp_name w ".gpg" in
    let w' = record w { temps = path ∷ w.temps } in
    elim (gpg_outcome (T.gpg w' source passphrase path)) [
      | ok done ↦ (ok path, w')
      | err e ↦ (err e, record w' { temps = remove path w'.temps })
    ]

-- The comparison of two hashes at the end of each `verify_…`.
unfoldable pub compare_hashes : String → String → String → String → Eff (Unit {0})
compare_hashes here there local remote =
    if str_eq local remote
    then log info ("SHA-256 OK: " <> (take_text 16 local <> "..."))
    else raise (
        checksum_error (
          "SHA-256 MISMATCH: "
          <> (here
              <> ("="
                  <> (take_text 16 local
                      <> ("... " <> (there <> ("=" <> (take_text 16 remote <> "...")))))))))

-- The remote hash in the output of `sha256sum` over ssh.
unfoldable pub remote_hash : ExitCode × String × String → Eff String
remote_hash (code, stdout, stderr) =
    if is_code 0 code
    then if str_eq (strip stdout) ""
      then raise (checksum_error "sha256sum failed: empty output")
      else pure (first_part (strip stdout))
    else raise (checksum_error ("sha256sum failed: " <> strip stderr))

-- `verify_rsync`
unfoldable pub verify_rsync : Tools → String → List String → String → Eff (Unit {0})
unfolding remote_hash compare_hashes
verify_rsync T source prefix remote = do
  local ← ask (λ w. T.local_sha256 w source)
  answer ← ask (λ w. T.capture w (prefix ++ (("sha256sum " <> shell_quote remote) ∷ [])))
  there ← remote_hash answer
  compare_hashes "local" "remote" local there
