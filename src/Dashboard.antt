-- ===== src/Dashboard.antt =====
-- The figures of the dashboard (services/web/apps/dashboard/stats.py). A day is its number; the percentage,
-- a floating-point number, is kept as the fraction that is rounded.
pub mod Counted
use tmask_tt.Base.{
  ℕ, zero, suc, ◌+◌, ◌-◌, String, ◌<>◌, Bool, true, false, ◌&&◌, Option, none, some, List, [], ◌∷◌,
  ◌++◌, map, leb, ◌==◌, str_eq, length, take, if◌then◌else◌,
}
use tmask_tt.Base.Tally.{add_count, count_of, tally}
use tmask_tt.Transfers.{Job, Status, pending, running, done, failed, cancelled}
use tmask_tt.Webhooks.Payload.{is_done, is_failed}

-- The local day of a time, how a label shows a day, and the names of connections and flows.
pub record Calendar : Type 0 where
  pub day_of : ℕ → ℕ
  pub label_of : ℕ → String
  pub connection_name : ℕ → String
  pub flow_name : ℕ → String

unfoldable pub with_status : (Status → Bool) → List Job → List Job
with_status test [] = []
with_status test (j ∷ js) =
    let rest = with_status test js in if test j.status then j ∷ rest else rest

module _ (C : Calendar) where
  -- `created_at__date__gte=start`
  unfoldable pub since_day : ℕ → List Job → List Job
  since_day start [] = []
  since_day start (j ∷ js) =
      let rest = since_day start js in if leb start (C.day_of j.created_at) then j ∷ rest else rest

  abbrev pub day : Job → ℕ
  day j = C.day_of j.created_at

  -- The days with the number of their jobs of a status: `values('day').annotate(Count(…, filter=…))`.
  unfoldable pub counts_by_day : ℕ → (Status → Bool) → List Job → List (ℕ × ℕ)
  unfolding since_day with_status tally
  counts_by_day start test jobs = tally ◌==◌ (map day (with_status test (since_day start jobs)))

  pub record PerDay : Type 0 where
    pub labels : List String
    pub done : List ℕ
    pub failed : List ℕ

  -- `range(days)` from a day on.
  unfoldable pub days_from : ℕ → ℕ → List ℕ
  days_from start zero = []
  days_from start (suc n) = start ∷ days_from (start + 1) n

  -- `transfers_per_day` of the jobs, on a day.
  unfoldable pub transfers_per_day : ℕ → ℕ → List Job → PerDay
  unfolding counts_by_day days_from count_of
  transfers_per_day today days jobs =
      let start = today + 1 - days in
      let range = days_from start days in
      record {
        labels = map C.label_of range;
        done = map (λ d. count_of ◌==◌ d (counts_by_day start is_done jobs)) range;
        failed = map (λ d. count_of ◌==◌ d (counts_by_day start is_failed jobs)) range;
      }

  abbrev pub source_names : List Job → List String
  source_names [] = []
  source_names (j ∷ js) = elim j.connection [
    | none ↦ source_names js
    | some k ↦ C.connection_name k ∷ source_names js
  ]

  abbrev pub relay_names : List Job → List String
  relay_names [] = []
  relay_names (j ∷ js) = elim j.flow [
    | none ↦ relay_names js
    | some k ↦ ("RELAY: " <> C.flow_name k) ∷ relay_names js
  ]

  -- Adding the counters of one query to the dictionary.
  unfoldable pub add_counts : List (String × ℕ) → List (String × ℕ) → List (String × ℕ)
  unfolding add_count
  add_counts [] counts = counts
  add_counts ((name, n) ∷ rows) counts = add_counts rows (add_count str_eq name n counts)

  -- `counts` of `top_sources`
  unfoldable pub source_counts : List Job → List (String × ℕ)
  unfolding add_counts tally
  source_counts jobs =
      add_counts (tally str_eq (relay_names jobs))
        (add_counts (tally str_eq (source_names jobs)) [])

  unfoldable pub insert_by_count : String × ℕ → List (String × ℕ) → List (String × ℕ)
  insert_by_count (name, n) [] = (name, n) ∷ []
  insert_by_count (name, n) ((other, m) ∷ rest) =
      let later = insert_by_count (name, n) rest in
      if leb m n then (name, n) ∷ (other, m) ∷ rest else (other, m) ∷ later

  -- `sorted(counts.items(), key=…, reverse=True)`, which is stable.
  unfoldable pub sort_by_count : List (String × ℕ) → List (String × ℕ)
  unfolding insert_by_count
  sort_by_count [] = []
  sort_by_count (c ∷ cs) = insert_by_count c (sort_by_count cs)

  -- `top_sources`: the labels with their counts.
  unfoldable pub top_sources : ℕ → List Job → List (String × ℕ)
  unfolding sort_by_count source_counts
  top_sources limit jobs = take limit (sort_by_count (source_counts jobs))

pub record SuccessRate : Type 0 where
  pub done : ℕ
  pub failed : ℕ
  pub other : ℕ
  pub total : ℕ
  pub rate : Option (ℕ × ℕ)

-- `success_rate`, with the fraction of `rate_pct` where it is not 0.0 for want of jobs.
unfoldable pub success_rate : List Job → SuccessRate
unfolding with_status
success_rate jobs =
    let done = length (with_status is_done jobs) in
    let failed = length (with_status is_failed jobs) in
    record {
      done = done;
      failed = failed;
      other = length jobs - done - failed;
      total = length jobs;
      rate = if (done + failed) == 0 then none else some (done, done + failed);
    }
