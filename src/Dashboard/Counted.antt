-- ===== src/Dashboard/Counted.antt =====
-- The figures of the dashboard counted directly (services/web/apps/dashboard/stats.py).
use tmask_tt.Base.{
  ℕ, zero, suc, ◌+◌, ◌-◌, ◌≤◌, ◌≡◌, refl, ap, ◌∙◌, Bool, ◌&&◌, List, [], ◌∷◌, map, arith, ==_iff,
  ◌==◌, if◌then◌else◌,
}
use tmask_tt.Base.Tally.{count_of, occurrences, count_of-tally}
use tmask_tt.Transfers.{Job, Status}
use tmask_tt.Webhooks.Payload.{is_done, is_failed}
use tmask_tt.Dashboard.{
  Calendar, day, with_status, since_day, counts_by_day, days_from, transfers_per_day,
}

module _ (C : Calendar) (test : Status → Bool) where
  -- How many jobs of a day have the status.
  unfoldable pub jobs_on : ℕ → List Job → ℕ
  jobs_on d [] = 0
  jobs_on d (j ∷ js) =
      (if test j.status && (C.day_of j.created_at == d) then 1 else 0) + jobs_on d js

  occurrences-day :
      (start d : ℕ) (jobs : List Job)
      → start ≤ d
      → occurrences ◌==◌ d (map (day C) (with_status test (since_day C start jobs)))
        ≡ jobs_on d jobs
  unfolding occurrences with_status since_day jobs_on
  occurrences-day start d [] h = refl
  occurrences-day start d (j ∷ js) h = ground (arith, occurrences-day start d js h)

  count_of-counts_by_day :
      (start d : ℕ) (jobs : List Job)
      → start ≤ d
      → count_of ◌==◌ d (counts_by_day C start test jobs) ≡ jobs_on d jobs
  unfolding counts_by_day
  count_of-counts_by_day start d jobs h =
      count_of-tally ◌==◌ ==_iff d _ ∙ occurrences-day start d jobs h

  counts-days_from :
      (start first n : ℕ) (jobs : List Job)
      → start ≤ first
      → map (λ d. count_of ◌==◌ d (counts_by_day C start test jobs)) (days_from C first n)
        ≡ map (λ d. jobs_on d jobs) (days_from C first n)
  unfolding days_from
  counts-days_from start first zero jobs h = refl
  counts-days_from start first (suc n) jobs h = rw (count_of-counts_by_day start first jobs h) (
      ap (λ rest. jobs_on first jobs ∷ rest)
        (counts-days_from start (first + 1) n jobs (omega arith)))

-- The chart has, for each of its days and in their order, the number of the jobs made on that day that are
-- done, and of those that failed.
pub transfers_per_day-jobs_on :
    (C : Calendar) (today days : ℕ) (jobs : List Job)
    → let range = days_from C (today + 1 - days) days in
      ((transfers_per_day C today days jobs).done ≡ map (λ d. jobs_on C is_done d jobs) range)
      × ((transfers_per_day C today days jobs).failed ≡ map (λ d. jobs_on C is_failed d jobs) range)
unfolding transfers_per_day
transfers_per_day-jobs_on C today days jobs = (
  counts-days_from C is_done (today + 1 - days) (today + 1 - days) days jobs (omega arith),
  counts-days_from C is_failed (today + 1 - days) (today + 1 - days) days jobs (omega arith),
)
