-- ===== src/Transfers/Lifecycle.antt =====
-- The life of a job's row: the operations of the model, the views that stop and delete a job
-- (services/web/apps/transfers/models.py, views.py) and the cleanup at a worker's start
-- (services/worker/tasks.py, `cleanup_orphan_jobs`).
use tmask_tt.Base.{
  ℕ, ◌↔◌, ◌≡◌, ◌⊎◌, inl, inr, refl, String, Bool, true, false, none, some, List, [], ◌∷◌, arith,
  is_some, any, Bool-cases,
}
use tmask_tt.Transfers.{
  Job, Status, pending, running, done, failed, cancelled, clean, mark_running, mark_done,
  update_progress, mark_failed, mark_cancelled, transfer_stop, transfer_delete, is_orphan,
  mend_orphan, interrupted, cleanup_orphan_jobs,
}

-- Two lists of one length whose elements are related in their places.
abbrev pub ZipAll {ℓ} : {A : Type ℓ} → (A → A → Type 0) → List A → List A → Type 0
ZipAll R [] [] = Unit {0}
ZipAll R [] (y ∷ ys) = ⊥
ZipAll R (x ∷ xs) [] = ⊥
ZipAll R (x ∷ xs) (y ∷ ys) = R x y × ZipAll R xs ys

-- A valid job has exactly one of a connection and a flow.
abbrev pub HasOneTarget : Job → Type 0
HasOneTarget j =
    ((is_some j.connection ≡ true) × (is_some j.flow ≡ false))
    ⊎ ((is_some j.connection ≡ false) × (is_some j.flow ≡ true))

-- `clean` accepts exactly the jobs with one target: a connection or a flow, and not both.
pub clean-HasOneTarget : (j : Job) → (clean j ≡ none) ↔ HasOneTarget j
unfolding clean
clean-HasOneTarget j = (ground arith, ground arith)

-- What the columns of a row say of each other.
abbrev pub IsConsistent : Job → Type 0
IsConsistent j = elim j.status [
  | pending ↦ (j.started_at ≡ none) × (j.finished_at ≡ none)
  | running ↦ is_some j.started_at ≡ true
  | done ↦
      (is_some j.started_at ≡ true)
      × (is_some j.finished_at ≡ true)
      × (j.progress_percent ≡ some 100)
  | failed ↦ is_some j.started_at ≡ true
  | cancelled ↦ (is_some j.finished_at ≡ true) × (is_some j.cancelled_by ≡ true)
]

-- A row whatever its status can be deleted once it was stopped, and stopping changes none that can
-- be deleted before.
pub transfer_delete-transfer_stop :
    (user now : ℕ) (j : Job)
    → (transfer_delete (transfer_stop user now j).job ≡ none)
      × ((transfer_delete j ≡ some j) ⊎ ((transfer_stop user now j).job ≡ j))
unfolding transfer_delete transfer_stop mark_cancelled
transfer_delete-transfer_stop user now j = (ground arith, ground arith)

-- A row that is left running was started within the hour, or has no start.
mend_orphan-done : (now : ℕ) (j : Job) → is_orphan now (mend_orphan now j) ≡ false
unfolding mend_orphan
mend_orphan-done now j = elim (Bool-cases (is_orphan now j)) [
  | inl h ↦ rw (h) refl
  | inr h ↦ rw (h, h) refl
]

-- What the cleanup makes of a row in its place.
abbrev pub Mended : ℕ → Job → Job → Type 0
Mended now j j' =
    ((is_orphan now j ≡ false) × (j' ≡ j))
    ⊎ ((is_orphan now j ≡ true)
        × (j'.status ≡ failed)
        × (j'.error_message ≡ interrupted)
        × (j'.pk ≡ j.pk))

mend_orphan-Mended : (now : ℕ) (j : Job) → Mended now j (mend_orphan now j)
unfolding mend_orphan
mend_orphan-Mended now j = ground arith

-- After the cleanup no job has been running for more than an hour, and each row is still in its
-- place: an orphan as failed with the message, any other as it was.
pub cleanup_orphan_jobs_lem :
    (now : ℕ) (jobs : List Job)
    → (any (is_orphan now) (cleanup_orphan_jobs now jobs) ≡ false)
      × ZipAll (Mended now) jobs (cleanup_orphan_jobs now jobs)
unfolding cleanup_orphan_jobs mend_orphan
cleanup_orphan_jobs_lem now [] = (refl, tt)
cleanup_orphan_jobs_lem now (j ∷ jobs) =
    let (none_left, mended) = cleanup_orphan_jobs_lem now jobs in
    (ground (arith, mend_orphan-done now j, none_left), (mend_orphan-Mended now j, mended))

-- Where the task of a job stands: not under way, in its `try` block, or past its end, where an error
-- can still fail the job.
pub data Phase : Type 0 where
  idle busy settling : Phase

-- What happens to a job's row, one save at a time, while one task at most works on it: the task's
-- saves, a user's stop at any moment, the end of a worker, and the cleanup at the next start.
pub data Step : Phase → Job → Phase → Job → Type 0 where
  starts : (task : String) (now : ℕ) {j : Job} → Step idle j busy (mark_running task now j)
  reports : (percent : ℕ) {j : Job} → Step busy j busy (update_progress percent j)
  completes : (now : ℕ) {j : Job} → Step busy j settling (mark_done now j)
  fails : (text : String) (now : ℕ) {j : Job} → Step busy j idle (mark_failed text now j)
  fails_late : (text : String) (now : ℕ) {j : Job} → Step settling j idle (mark_failed text now j)
  rests : {j : Job} → Step settling j idle j
  dies : {j : Job} → Step busy j idle j
  stops : (user now : ℕ) {p : Phase} {j : Job} → Step p j p (transfer_stop user now j).job
  mends : (now : ℕ) {p : Phase} {j : Job} → Step p j p (mend_orphan now j)

pub data Steps : Phase → Job → Phase → Job → Type 0 where
  stay : {p : Phase} {j : Job} → Steps p j p j
  step : {p q r : Phase} {i j k : Job} → Step p i q j → Steps q j r k → Steps p i r k

abbrev is_done : Status → Bool
is_done done = true
is_done _ = false

-- A task under way has stored its start.
abbrev pub HasStarted : Phase → Job → Type 0
HasStarted idle j = Unit {0}
HasStarted busy j = (is_some j.started_at ≡ true) × (is_done j.status ≡ false)
HasStarted settling j = is_some j.started_at ≡ true

Step-IsConsistent :
    {p q : Phase} {i j : Job}
    → Step p i q j
    → IsConsistent i × HasStarted p i
    → IsConsistent j × HasStarted q j
unfolding mark_running update_progress mark_done mark_failed transfer_stop mark_cancelled
    mend_orphan
Step-IsConsistent (starts task now) h = ground arith
Step-IsConsistent (reports percent) h = ground arith
Step-IsConsistent (completes now) h = ground arith
Step-IsConsistent (fails text now) h = ground arith
Step-IsConsistent (fails_late text now) h = ground arith
Step-IsConsistent rests h = ground arith
Step-IsConsistent dies h = ground arith
Step-IsConsistent (stops user now) h = ground arith
Step-IsConsistent (mends now) h = ground arith

-- Whatever happens to a new job, its columns stay consistent: a job that is running, done or failed
-- has a start, a done one an end and 100 percent, a cancelled one an end and who cancelled it, and
-- a pending one neither a start nor an end.
pub Steps-IsConsistent :
    {p q : Phase} {i j : Job}
    → IsConsistent i
    → HasStarted p i
    → Steps p i q j
    → IsConsistent j × HasStarted q j
Steps-IsConsistent h s stay = (h, s)
Steps-IsConsistent h s (step first rest) =
    let (h', s') = Step-IsConsistent first (h, s) in Steps-IsConsistent h' s' rest
