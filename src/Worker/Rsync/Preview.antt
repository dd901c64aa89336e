-- ===== src/Worker/Rsync/Preview.antt =====
-- The preview of the rsync handler (services/worker/modules/rsync/handler.py, `preview`).
use tmask_tt.Base.{String, ◌<>◌, Bool, true, false, Option, none, some, if◌then◌else◌}
use tmask_tt.Worker.{
  ok, err, Exn, transfer_error, gpg_error, Eff, pure, raise, ◌>>=◌, ◌>>◌, attempt, finally, lift,
}
use tmask_tt.Worker.Params.{Params, Tools, ExitCode, is_given}
use tmask_tt.Worker.Rsync.{
  host_key_warning, build_command, run_attempt, setup_known_hosts, setup_ssh_key,
  encrypt_source_if_needed, hold_known_hosts, hold_ssh_key, hold_encrypted, clean_up, forget_paths,
}

pub record Preview : Type 0 where
  pub exit_code : Option ExitCode
  pub output : String

abbrev warning_prefix : Option String → String
warning_prefix known = if is_given known then "" else host_key_warning <> "\n"

abbrev failed_preview : String → Preview
failed_preview text = record { exit_code = none; output = text }

-- The `except` clauses of `preview`.
abbrev key_answer : Option String → Exn → Eff Preview
key_answer known (transfer_error m) = pure (failed_preview (warning_prefix known <> m))
key_answer known e = raise e

abbrev gpg_answer : Option String → Exn → Eff Preview
gpg_answer known (gpg_error m) =
    pure (failed_preview (warning_prefix known <> ("GPG ENCRYPTION FAILED: " <> m)))
gpg_answer known e = raise e

module _ (T : Tools) (p : Params) where
  -- What `preview` gives back.
  unfoldable pub preview_run :
      Option String → Option String → Bool × Option String × Option String → Eff Preview
  unfolding build_command run_attempt
  preview_run known key (use_gpg, source, dest) = do
    cmd ← lift (build_command p source dest known key true)
    done ← run_attempt T p cmd false
    pure (record { exit_code = some done.0; output = warning_prefix known <> done.1 })

  -- The rest of `preview` behind the key: an error of gpg is an answer.
  unfoldable pub preview_encrypted : Option String → Option String → Eff Preview
  unfolding encrypt_source_if_needed preview_run
  preview_encrypted known key = do
    enc ← attempt (encrypt_source_if_needed T p)
    elim enc [ ok e ↦ hold_encrypted e.1 >> preview_run known key e | err e ↦ gpg_answer known e ]

  unfoldable pub preview_keyed : Option String → Eff Preview
  unfolding setup_ssh_key preview_encrypted
  preview_keyed known = do
    key ← attempt (setup_ssh_key T p)
    elim key [ ok k ↦ hold_ssh_key k >> preview_encrypted known k | err e ↦ key_answer known e ]

  unfoldable pub preview_body : Eff Preview
  unfolding setup_known_hosts preview_keyed
  preview_body = do known ← setup_known_hosts T p; hold_known_hosts known; preview_keyed known

  unfoldable pub preview : Eff Preview
  unfolding preview_body clean_up
  preview w = finally preview_body clean_up (forget_paths w)
