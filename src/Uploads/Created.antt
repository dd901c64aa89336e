-- ===== src/Uploads/Created.antt =====
-- The jobs that an upload makes (services/web/apps/transfers/views.py, `transfer_create`).
use tmask_tt.Base.{
  ℕ, ◌≡◌, refl, ap, ◌∙◌, ◌⊎◌, inl, inr, String, Bool, true, false, Option, none, some, List, [],
  ◌∷◌, arith, ltb, any, Bool-cases, Option-cases, length,
}
use tmask_tt.Base.Str.{ends_with_char}
use tmask_tt.Base.Text.{codes}
use tmask_tt.Accounts.{User, operator, level_of, role_level}
use tmask_tt.Transfers.{Job}
use tmask_tt.Transfers.Paths.{validate_transfer_path}
use tmask_tt.Api.Start.{new_job}
use tmask_tt.Pages.{with_role-cases}
use tmask_tt.Scheduler.{FormRequest, shown, invalid, filled}
use tmask_tt.Uploads.{
  Upload, TransferForm, Settings, Site, UploadState, is_bad_upload, needs_directory, is_valid,
  local_path, passphrase_of, dispatch_transfer, dispatch_all, write_all, create_jobs, answer_of,
  create_one, finish_batch, create_for, with_transfer_form, transfer_create,
}
use tmask_tt.Uploads.Added.{
  files_written, IsFor, target_of, HasAdded, HasAdded-set, dispatch_transfer-jobs,
  dispatch_all-jobs, write_all_ok, IsFor-batch,
}

module _ (S : Site) where
  create_jobs-HasAdded :
      (C : Settings) (now : ℕ) (u : User) (f : TransferForm) (xs : List Upload) (jobs : List Job)
      → ltb 1 (length f.uploads) ≡ true
      → ends_with_char b'/' f.destination_path ≡ true
      → validate_transfer_path (codes f.destination_path) ≡ none
      → any (is_bad_upload C) xs ≡ false
      → HasAdded C u f xs jobs (create_jobs S C now u f xs jobs).1
  unfolding create_jobs
  create_jobs-HasAdded C now u f [] jobs many slashed dir good = refl
  create_jobs-HasAdded C now u f (x ∷ xs) jobs many slashed dir good = (
    _,
    IsFor-batch S C now (S.new_pk jobs) u f x many slashed dir (ground arith),
    create_jobs-HasAdded C now u f xs _ many slashed dir (ground arith),
  )

  -- What a valid form leaves: the table as it was, or a job for each file, every one of which is written.
  abbrev Outcome : Settings → User → TransferForm → List Upload → UploadState → UploadState → Type 0
  Outcome C u f xs s after =
      (after.jobs ≡ s.jobs)
      ⊎ (HasAdded C u f xs s.jobs after.jobs × (after.written ≡ files_written C xs s.written))

  answer_of-state : (r : Bool × UploadState) → (answer_of r).1 ≡ r.1
  answer_of-state (true, s) = refl
  answer_of-state (false, s) = refl

  finish_batch-Outcome :
      (C : Settings) (now : ℕ) (u : User) (f : TransferForm) (xs : List Upload)
      (r : Option (String × String) × List String) (s : UploadState)
      → f.uploads ≡ xs
      → ltb 1 (length xs) ≡ true
      → is_valid C f ≡ true
      → (r.0 ≡ none → r.1 ≡ files_written C xs s.written)
      → Outcome C u f xs s (finish_batch S C now u f xs r s).1
  unfolding finish_batch is_valid needs_directory
  finish_batch-Outcome C now u f xs (some (name, m), written) s same many valid wrote = inl refl
  finish_batch-Outcome C now u f xs (none, written) s same many valid wrote =
      let (pks, jobs) = create_jobs S C now u f xs s.jobs in
      let made = record s { jobs = jobs; written = written } in
      let kept = dispatch_all-jobs S (passphrase_of f) pks made in
      let r = dispatch_all S (passphrase_of f) pks made in
      let several : ltb 1 (length f.uploads) ≡ true = ground (arith, ap length same) in
      inr (
        rw (answer_of-state r) (
          HasAdded-set C u f xs s.jobs jobs r.1.jobs kept.0 (
              create_jobs-HasAdded C now u f xs s.jobs several (ground (arith, several))
                (ground arith) (ground (arith, ap (any (is_bad_upload C)) same))),
          kept.1 ∙ wrote refl,
        ))

  IsFor-single :
      (C : Settings) (now pk : ℕ) (u : User) (f : TransferForm) (x : Upload)
      → f.uploads ≡ x ∷ []
      → is_valid C f ≡ true
      → IsFor C u f
          (target_of f x)
          x
          (new_job pk now u.pk (some f.connection) none (local_path C x) f.destination_path)
  unfolding new_job is_bad_upload is_valid
  IsFor-single C now pk u f x single valid =
      let few : ltb 1 (length f.uploads) ≡ false = ground (arith, ap length single) in
      let good : is_bad_upload C x ≡ false = ground (arith, ap (any (is_bad_upload C)) single) in
      rw few (record {
        owner = refl;
        connection = refl;
        flow = refl;
        status = refl;
        source = refl;
        name = ground (arith, good);
        small = ground (arith, good);
        target = refl;
        valid = ground arith;
      })

  create_one-Outcome :
      (C : Settings) (now : ℕ) (u : User) (f : TransferForm) (x : Upload) (s : UploadState)
      → f.uploads ≡ x ∷ []
      → is_valid C f ≡ true
      → Outcome C u f (x ∷ []) s (create_one S C now u f x s).1
  unfolding create_one
  create_one-Outcome C now u f x s single valid =
      elim (Option-cases (S.write s.written (local_path C x))) [
        | inr (m, bad) ↦ rw (bad, create_one) (inl refl)
        | inl fine ↦
            let pk = S.new_pk s.jobs in
            let job =
              new_job pk now u.pk (some f.connection) none (local_path C x) f.destination_path in
            let made = record s { jobs = job ∷ s.jobs; written = local_path C x ∷ s.written } in
            let kept = dispatch_transfer-jobs S (passphrase_of f) pk made in
            rw (fine, create_one, answer_of-state (dispatch_transfer S (passphrase_of f) pk made))
              (inr ((job, IsFor-single C now pk u f x single valid, kept.0), kept.1))
      ]

  create_for-Outcome :
      (C : Settings) (now : ℕ) (u : User) (f : TransferForm) (xs : List Upload) (s : UploadState)
      → f.uploads ≡ xs
      → is_valid C f ≡ true
      → Outcome C u f xs s (create_for S C now u f xs s).1
  unfolding create_for finish_batch create_jobs dispatch_all write_all
  create_for-Outcome C now u f (x ∷ []) s same valid = create_one-Outcome C now u f x s same valid
  create_for-Outcome C now u f [] s same valid = inr (refl, refl)
  create_for-Outcome C now u f (x ∷ y ∷ xs) s same valid =
      let uploads = x ∷ y ∷ xs in
      finish_batch-Outcome C now u f uploads (write_all S C uploads s.written) s same (ground arith)
        valid (write_all_ok S C uploads s.written)

-- The effect of a request by a user who may operate.
abbrev pub Effect : Settings → User → FormRequest TransferForm → UploadState → UploadState → Type 0
Effect C u request s after =
    (after.jobs ≡ s.jobs)
    ⊎ ((f : TransferForm) × (request ≡ filled f)
        × HasAdded C u f f.uploads s.jobs after.jobs
        × (after.written ≡ files_written C f.uploads s.written))

with_transfer_form-Effect :
    (S : Site) (C : Settings) (now : ℕ) (u : User) (request : FormRequest TransferForm)
    (s : UploadState)
    → Effect C u request s
        (with_transfer_form C request s (λ f. create_for S C now u f f.uploads s)).1
with_transfer_form-Effect S C now u shown s = inl refl
with_transfer_form-Effect S C now u invalid s = inl refl
with_transfer_form-Effect S C now u (filled f) s = elim (Bool-cases (is_valid C f)) [
  | inr bad ↦ rw bad (inl refl)
  | inl good ↦ rw good (elim (create_for-Outcome S C now u f f.uploads s refl good) [
    | inl same ↦ inl same
    | inr (added, written) ↦ inr (f, refl, added, written)
  ])
]

-- A request to the page of transfers leaves the jobs as they were, or a user who may operate has filled in the
-- form validly and there is one new job for each file, in their order: the user's, waiting, with the file in
-- TRANSFERS_DIR as its source and a valid path as its destination, which in a batch is the directory of the
-- form with the name of the file; and every one of the files is written.
pub transfer_create_adds :
    (S : Site) (C : Settings) (now : ℕ) (actor : Option User) (request : FormRequest TransferForm)
    (s : UploadState)
    → let after = (transfer_create S C now actor request s).1 in
      (after.jobs ≡ s.jobs)
      ⊎ ((u : User) × (actor ≡ some u)
          × (ltb (role_level u) (level_of operator) ≡ false)
          × Effect C u request s after)
unfolding transfer_create
transfer_create_adds S C now actor request s =
    elim (with_role-cases operator actor s
      (λ u. with_transfer_form C request s (λ f. create_for S C now u f f.uploads s))) [
        | inl same ↦ inl (ap (λ (t : UploadState). t.jobs) same)
        | inr (u, named, allowed, e) ↦
            inr (u, named, allowed, rw e (with_transfer_form-Effect S C now u request s))
      ]
