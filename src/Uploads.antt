-- ===== src/Uploads.antt =====
-- Transfers of uploaded files (services/web/apps/transfers/forms.py, `TransferForm`; transfers/views.py,
-- `transfer_create`, `transfer_dry_run`).
pub mod Batch
pub mod Added
pub mod Created
mod Tests
use tmask_tt.Base.{
  ℕ, ◌+◌, String, ◌<>◌, Bool, true, false, ◌&&◌, ◌||◌, not, Option, none, some, List, [], ◌∷◌, ltb,
  ◌==◌, any, is_some, str_eq, length, if◌then◌else◌,
}
use tmask_tt.Base.Str.{strip, ends_with_char}
use tmask_tt.Base.Text.{codes}
use tmask_tt.Accounts.{User, operator}
use tmask_tt.Worker.{Result, ok, err}
use tmask_tt.Worker.Params.{none_if_empty}
use tmask_tt.Webhooks.Payload.{Protocol, sftp, rsync}
use tmask_tt.Transfers.{Job}
use tmask_tt.Transfers.Paths.{validate_transfer_path, validate_source_filename}
use tmask_tt.Api.Start.{new_job}
use tmask_tt.Pages.{Answer, done, failed, form_page, page_error, with_role}
use tmask_tt.Scheduler.{FormRequest, shown, invalid, filled}

-- A file of a request: its name and its size in bytes.
pub record Upload : Type 0 where
  pub name : String
  pub size : ℕ

-- The fields of `TransferForm`, where Django's own checks of each of them pass.
pub record TransferForm : Type 0 where
  pub connection : ℕ
  pub protocol : Protocol
  pub destination_path : String
  pub uploads : List Upload
  pub gpg_passphrase : String

-- TRANSFERS_DIR and MAX_UPLOAD_BYTES.
pub record Settings : Type 0 where
  pub transfers_dir : String
  pub max_upload_bytes : ℕ

-- `clean_upload`: whether it raises `ValidationError` for a file.
unfoldable pub is_bad_upload : Settings → Upload → Bool
is_bad_upload C u =
    ltb C.max_upload_bytes u.size || is_some (validate_source_filename (codes u.name))

-- `clean`: the files of a batch need a directory.
unfoldable pub needs_directory : TransferForm → Bool
unfolding ends_with_char
needs_directory f = ltb 1 (length f.uploads) && not (ends_with_char b'/' f.destination_path)

-- `form.is_valid()` behind Django's own checks: `clean_upload`, `clean_destination_path` and `clean`.
unfoldable pub is_valid : Settings → TransferForm → Bool
unfolding is_bad_upload needs_directory
is_valid C f =
    not (any (is_bad_upload C) f.uploads)
    && not (is_some (validate_transfer_path (codes f.destination_path)))
    && not (needs_directory f)

-- The file in TRANSFERS_DIR that an upload is written to.
abbrev pub local_path : Settings → Upload → String
local_path C u = C.transfers_dir <> ("/" <> u.name)

-- The key of a new row; the result of writing a file, after those that are written; and the name that the
-- broker gives a task, after those that it has.
pub record Site : Type 0 where
  pub new_pk : List Job → ℕ
  pub write : List String → String → Option String
  pub send_task : List (ℕ × Option String) → ℕ → Option String → Result String
  pub send_preview : ℕ → String → String → Option String → Result String

-- The rows, the tasks sent for jobs with their passphrases, and the files written, each with the last one
-- first.
pub record UploadState : Type 0 where
  pub jobs : List Job
  pub sent : List (ℕ × Option String)
  pub written : List String

abbrev pub passphrase_of : TransferForm → Option String
passphrase_of f = none_if_empty (strip f.gpg_passphrase)

-- `TransferJob.objects.filter(pk=…).update(celery_task_id=…)`
unfoldable pub set_task : ℕ → String → List Job → List Job
set_task pk task [] = []
set_task pk task (j ∷ js) =
    (if j.pk == pk then record j { celery_task_id = task } else j) ∷ set_task pk task js

abbrev is_rsync : Protocol → Bool
is_rsync rsync = true
is_rsync sftp = false

abbrev pub answer_of : Bool × UploadState → Answer × UploadState
answer_of (true, s) = (done, s)
answer_of (false, s) = (failed, s)

abbrev pub with_transfer_form :
    Settings
    → FormRequest TransferForm
    → UploadState
    → (TransferForm → Answer × UploadState)
    → Answer × UploadState
with_transfer_form C shown s view = (form_page, s)
with_transfer_form C invalid s view = (form_page, s)
with_transfer_form C (filled f) s view = if is_valid C f then view f else (form_page, s)

module _ (S : Site) where
  -- `_dispatch_transfer`, with the error that `send_task` raises.
  unfoldable pub dispatch_transfer : Option String → ℕ → UploadState → Bool × UploadState
  unfolding set_task
  dispatch_transfer passphrase pk s = elim (S.send_task s.sent pk passphrase) [
    | err e ↦ (false, s)
    | ok task ↦
        (true, record s { jobs = set_task pk task s.jobs; sent = (pk, passphrase) ∷ s.sent })
  ]

  -- `_dispatch_all`: an error ends the loop.
  unfoldable pub dispatch_all : Option String → List ℕ → UploadState → Bool × UploadState
  unfolding dispatch_transfer
  dispatch_all passphrase [] s = (true, s)
  dispatch_all passphrase (pk ∷ pks) s =
      let (went, s') = dispatch_transfer passphrase pk s in
      let rest = dispatch_all passphrase pks s' in if went then rest else (false, s')

  -- The loop that writes the files of a batch: the first name with its error, and the files.
  unfoldable pub write_all :
      Settings → List Upload → List String → Option (String × String) × List String
  write_all C [] written = (none, written)
  write_all C (u ∷ us) written =
      let rest = write_all C us (local_path C u ∷ written) in
      elim (S.write written (local_path C u)) [ some m ↦ (some (u.name, m), written) | none ↦ rest ]

  -- The list of `TransferJob.objects.create(…)`: the keys in their order, and the table.
  unfoldable pub create_jobs :
      Settings → ℕ → User → TransferForm → List Upload → List Job → List ℕ × List Job
  unfolding new_job
  create_jobs C now u f [] jobs = ([], jobs)
  create_jobs C now u f (x ∷ xs) jobs =
      let pk = S.new_pk jobs in
      let job =
        new_job pk now u.pk (some f.connection) none (local_path C x)
          (f.destination_path <> x.name) in
      let (pks, jobs') = create_jobs C now u f xs (job ∷ jobs) in (pk ∷ pks, jobs')

  -- A valid form with one file.
  unfoldable pub create_one :
      Settings → ℕ → User → TransferForm → Upload → UploadState → Answer × UploadState
  unfolding dispatch_transfer new_job
  create_one C now u f x s = elim (S.write s.written (local_path C x)) [
    | some m ↦ (page_error ("Nie udało się zapisać pliku: " <> m), s)
    | none ↦
        let pk = S.new_pk s.jobs in
        let job =
          new_job pk now u.pk (some f.connection) none (local_path C x) f.destination_path in
        answer_of (
          dispatch_transfer (passphrase_of f) pk
            (record s { jobs = job ∷ s.jobs; written = local_path C x ∷ s.written }))
  ]

  -- What is left of a batch once its files are written, or one of them is not.
  unfoldable pub finish_batch :
      Settings
      → ℕ
      → User
      → TransferForm
      → List Upload
      → Option (String × String) × List String
      → UploadState
      → Answer × UploadState
  unfolding create_jobs dispatch_all
  finish_batch C now u f xs (some (name, m), written) s = (
    page_error ("Nie udało się zapisać pliku " <> (name <> (": " <> m))),
    record s { written = written },
  )
  finish_batch C now u f xs (none, written) s =
      let (pks, jobs) = create_jobs C now u f xs s.jobs in
      answer_of (dispatch_all (passphrase_of f) pks (record s { jobs = jobs; written = written }))

  -- A valid form, by its files.
  unfoldable pub create_for :
      Settings → ℕ → User → TransferForm → List Upload → UploadState → Answer × UploadState
  unfolding create_one finish_batch write_all
  create_for C now u f (x ∷ []) s = create_one C now u f x s
  create_for C now u f uploads s = finish_batch C now u f uploads (write_all C uploads s.written) s

  -- `transfer_create`
  unfoldable pub transfer_create :
      Settings → ℕ → Option User → FormRequest TransferForm → UploadState → Answer × UploadState
  unfolding with_role is_valid create_for
  transfer_create C now actor request s =
      with_role operator actor s
        (λ u. with_transfer_form C request s (λ f. create_for C now u f f.uploads s))

  -- A valid form of `transfer_dry_run`, by its files; its page shows the name of the task.
  unfoldable pub dry_run_for :
      Settings → TransferForm → List Upload → UploadState → Answer × UploadState
  dry_run_for C f (x ∷ []) s =
      if not (is_rsync f.protocol)
      then (page_error "Dry-run jest dostępny tylko dla połączeń rsync.", s)
      else elim (S.write s.written (local_path C x)) [
        | some m ↦ (page_error ("Nie udało się zapisać pliku: " <> m), s)
        | none ↦
            let s' = record s { written = local_path C x ∷ s.written } in
            elim (S.send_preview f.connection (local_path C x) f.destination_path
              (passphrase_of f)) [ err e ↦ (failed, s') | ok task ↦ (form_page, s') ]
      ]
  dry_run_for C f uploads s = (page_error "Dry-run obsługuje tylko jeden plik na raz.", s)

  -- `transfer_dry_run`
  unfoldable pub transfer_dry_run :
      Settings → Option User → FormRequest TransferForm → UploadState → Answer × UploadState
  unfolding with_role is_valid dry_run_for
  transfer_dry_run C actor request s =
      with_role operator actor s
        (λ u. with_transfer_form C request s (λ f. dry_run_for C f f.uploads s))
