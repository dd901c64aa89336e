-- ===== src/Uploads/Added.antt =====
-- What a batch of uploads adds to the jobs and to the files (services/web/apps/transfers/views.py).
use tmask_tt.Base.{
  ℕ, ◌≡◌, refl, ◌∙◌, inl, inr, String, ◌<>◌, true, false, Option, none, some, List, [], ◌∷◌, map,
  arith, ltb, Bool-cases, Option-cases, length, if◌then◌else◌,
}
use tmask_tt.Base.Str.{ends_with_char}
use tmask_tt.Base.Text.{codes}
use tmask_tt.Accounts.{User}
use tmask_tt.Worker.{Result-cases}
use tmask_tt.Transfers.{Job, pending}
use tmask_tt.Transfers.Paths.{validate_transfer_path, validate_source_filename}
use tmask_tt.Api.Start.{new_job}
use tmask_tt.Uploads.{
  Upload, TransferForm, Settings, Site, UploadState, is_bad_upload, local_path, set_task,
  dispatch_transfer, dispatch_all, write_all,
}
use tmask_tt.Uploads.Batch.{validate_batch_path}

-- A row without the name of its task.
abbrev pub untasked : Job → Job
untasked j = record j { celery_task_id = "" }

-- The files of a list written one after another.
abbrev pub files_written : Settings → List Upload → List String → List String
files_written C [] written = written
files_written C (x ∷ xs) written = files_written C xs (local_path C x ∷ written)

-- A job that is right for a file: it is the user's, waits, reads the file in TRANSFERS_DIR, whose name names
-- an entry of it, and writes to a path that is valid.
pub record IsFor (C : Settings) (u : User) (f : TransferForm) (dest : String) (x : Upload) (j : Job)
    : Type 0 where
  pub owner : j.owner ≡ u.pk
  pub connection : j.connection ≡ some f.connection
  pub flow : j.flow ≡ none
  pub status : j.status ≡ pending
  pub source : j.source_path ≡ local_path C x
  pub name : validate_source_filename (codes x.name) ≡ none
  pub small : ltb C.max_upload_bytes x.size ≡ false
  pub target : j.destination_path ≡ dest
  pub valid : validate_transfer_path (codes dest) ≡ none

-- The destination of a file: the form's own path for a single one, an entry of it in a batch.
abbrev pub target_of : TransferForm → Upload → String
target_of f x =
    if ltb 1 (length f.uploads) then f.destination_path <> x.name else f.destination_path

-- The table got one job for each file, in the order of the files, and the names of tasks.
abbrev pub HasAdded : Settings → User → TransferForm → List Upload → List Job → List Job → Type 0
HasAdded C u f [] jobs after = map untasked after ≡ map untasked jobs
HasAdded C u f (x ∷ xs) jobs after =
    (j : Job) × IsFor C u f (target_of f x) x j × HasAdded C u f xs (j ∷ jobs) after

pub map-set_task :
    (pk : ℕ) (task : String) (jobs : List Job)
    → map untasked (set_task pk task jobs) ≡ map untasked jobs
unfolding set_task
map-set_task pk task [] = refl
map-set_task pk task (j ∷ js) = ground (arith, map-set_task pk task js)

pub HasAdded-set :
    (C : Settings) (u : User) (f : TransferForm) (xs : List Upload) (jobs a b : List Job)
    → map untasked b ≡ map untasked a
    → HasAdded C u f xs jobs a
    → HasAdded C u f xs jobs b
HasAdded-set C u f [] jobs a b e h = e ∙ h
HasAdded-set C u f (x ∷ xs) jobs a b e (j, fits, rest) =
    (j, fits, HasAdded-set C u f xs (j ∷ jobs) a b e rest)

module _ (S : Site) where
  pub dispatch_transfer-jobs :
      (p : Option String) (pk : ℕ) (s : UploadState)
      → (map untasked (dispatch_transfer S p pk s).1.jobs ≡ map untasked s.jobs)
        × ((dispatch_transfer S p pk s).1.written ≡ s.written)
  unfolding dispatch_transfer
  dispatch_transfer-jobs p pk s = elim (Result-cases (S.send_task s.sent pk p)) [
    | inl (task, went) ↦ rw (went, dispatch_transfer) (map-set_task pk task s.jobs, refl)
    | inr (e, broken) ↦ rw (broken, dispatch_transfer) (refl, refl)
  ]

  pub dispatch_all-jobs :
      (p : Option String) (pks : List ℕ) (s : UploadState)
      → (map untasked (dispatch_all S p pks s).1.jobs ≡ map untasked s.jobs)
        × ((dispatch_all S p pks s).1.written ≡ s.written)
  unfolding dispatch_all
  dispatch_all-jobs p [] s = (refl, refl)
  dispatch_all-jobs p (pk ∷ pks) s =
      let (went, s') = dispatch_transfer S p pk s in
      let first = dispatch_transfer-jobs p pk s in
      let rest = dispatch_all-jobs p pks s' in
      elim (Bool-cases went) [
        | inl through ↦ rw (through, dispatch_all) (rest.0 ∙ first.0, rest.1 ∙ first.1)
        | inr stopped ↦ rw (stopped, dispatch_all) first
      ]

  pub write_all_ok :
      (C : Settings) (xs : List Upload) (written : List String)
      → (write_all S C xs written).0 ≡ none
      → (write_all S C xs written).1 ≡ files_written C xs written
  unfolding write_all
  write_all_ok C [] written h = refl
  write_all_ok C (x ∷ xs) written h = elim (Option-cases (S.write written (local_path C x))) [
    | inl fine ↦
        rw (fine, write_all) (write_all_ok C xs (local_path C x ∷ written) (ground (arith, fine)))
    | inr (m, bad) ↦ absurd (ground arith)
  ]

  -- What the form has checked of a file, and of a directory for a batch.
  pub IsFor-batch :
      (C : Settings) (now pk : ℕ) (u : User) (f : TransferForm) (x : Upload)
      → ltb 1 (length f.uploads) ≡ true
      → ends_with_char b'/' f.destination_path ≡ true
      → validate_transfer_path (codes f.destination_path) ≡ none
      → is_bad_upload C x ≡ false
      → IsFor C u f (target_of f x) x (
          new_job pk now u.pk
            (some f.connection)
            none
            (local_path C x)
            (f.destination_path <> x.name))
  unfolding new_job is_bad_upload
  IsFor-batch C now pk u f x many slashed dir good =
      let named : validate_source_filename (codes x.name) ≡ none = ground arith in
      rw many (record {
        owner = refl;
        connection = refl;
        flow = refl;
        status = refl;
        source = refl;
        name = named;
        small = ground arith;
        target = refl;
        valid = validate_batch_path f.destination_path x.name slashed dir named;
      })
