-- ===== src/Monitoring.antt =====
-- The metrics for Prometheus (services/web/apps/monitoring/collectors.py, auth.py).
use tmask_tt.Base.{
  ℕ, ◌+◌, ◌≡◌, refl, String, Bool, ◌&&◌, Option, none, some, List, [], ◌∷◌, ◌++◌, map, arith,
  str_eq, length, not, all, ltb, if◌then◌else◌,
}
use tmask_tt.Base.Text.{Text, codes, text_eq, after_prefix}
use tmask_tt.Base.Tally.{tally, total, total-tally}
use tmask_tt.Transfers.{Job}
use tmask_tt.Database.Task.{DbTransferJob, Engine, postgres, mysql, mssql}
use tmask_tt.Webhooks.Payload.{status_text}

-- _FILE_MODULE_EXPR, by the protocol of a connection.
unfoldable pub file_module : (ℕ → Option String) → Job → String
file_module protocol j = elim j.flow [
  | some k ↦ "relay"
  | none ↦ elim j.connection [
    | none ↦ "unknown"
    | some c ↦ elim (protocol c) [ none ↦ "unknown" | some p ↦ p ]
  ]
]

unfoldable pub engine_text : Engine → String
engine_text postgres = "postgres"
engine_text mysql = "mysql"
engine_text mssql = "mssql"

-- The labels 'type', 'module' and 'status' of a metric.
abbrev pub Labels : Type 0
Labels = String × String × String

unfoldable pub labels_eq : Labels → Labels → Bool
labels_eq (a, b, c) (d, e, f) = str_eq a d && (str_eq b e && str_eq c f)

unfoldable pub file_labels : (ℕ → Option String) → Job → Labels
unfolding file_module
file_labels protocol j = ("file", file_module protocol j, status_text j.status)

unfoldable pub db_labels : DbTransferJob → Labels
unfolding engine_text
db_labels j = ("db", engine_text j.engine, status_text j.status)

-- `_jobs_total`: the metrics with their values.
unfoldable pub jobs_total : (ℕ → Option String) → List Job → List DbTransferJob → List (Labels × ℕ)
unfolding tally file_labels db_labels labels_eq
jobs_total protocol jobs db_jobs =
    tally labels_eq (map (file_labels protocol) jobs) ++ tally labels_eq (map db_labels db_jobs)

-- What `Sum` and `Count` give of the jobs of a module that have begun and ended: their number, and the sums
-- of their ends and of their beginnings, whose difference is the sum of their durations.
pub record Durations : Type 0 where
  pub module_name : String
  pub cnt : ℕ
  pub ended : ℕ
  pub begun : ℕ

unfoldable pub add_duration : String → ℕ → ℕ → List Durations → List Durations
add_duration name begun ended [] =
    record { module_name = name; cnt = 1; ended = ended; begun = begun } ∷ []
add_duration name begun ended (d ∷ ds) =
    let rest = add_duration name begun ended ds in
    if str_eq d.module_name name
    then record d { cnt = d.cnt + 1; ended = d.ended + ended; begun = d.begun + begun } ∷ ds
    else d ∷ rest

-- A job with both times.
abbrev timed : String → Option ℕ → Option ℕ → List Durations → List Durations
timed name (some begun) (some ended) ds = add_duration name begun ended ds
timed name _ _ ds = ds

unfoldable pub file_durations : (ℕ → Option String) → List Job → List Durations
unfolding add_duration file_module
file_durations protocol [] = []
file_durations protocol (j ∷ js) =
    timed (file_module protocol j) j.started_at j.finished_at (file_durations protocol js)

unfoldable pub db_durations : List DbTransferJob → List Durations
unfolding add_duration engine_text
db_durations [] = []
db_durations (j ∷ js) = timed (engine_text j.engine) j.started_at j.finished_at (db_durations js)

-- `_duration_seconds`: the types with their modules.
unfoldable pub duration_seconds :
    (ℕ → Option String) → List Job → List DbTransferJob → List (String × Durations)
unfolding file_durations db_durations
duration_seconds protocol jobs db_jobs =
    map (λ d. ("file", d)) (file_durations protocol jobs)
    ++ map (λ d. ("db", d)) (db_durations db_jobs)

-- `collect`, with the length of the queue that Redis tells.
pub record Metrics : Type 0 where
  pub jobs : List (Labels × ℕ)
  pub durations : List (String × Durations)
  pub queue_length : ℕ

unfoldable pub collect : (ℕ → Option String) → ℕ → List Job → List DbTransferJob → Metrics
unfolding jobs_total duration_seconds
collect protocol queue jobs db_jobs = record {
  jobs = jobs_total protocol jobs db_jobs;
  durations = duration_seconds protocol jobs db_jobs;
  queue_length = queue;
}

-- What a request for the metrics is answered: 401, the `TypeError` of `secrets.compare_digest`, or the page.
pub data MetricsAnswer : Type 0 where
  unauthorized type_error : MetricsAnswer
  page : Metrics → MetricsAnswer

-- `str.isascii`
unfoldable pub is_ascii : Text → Bool
is_ascii s = all (λ c. ltb c 128) s

-- The part behind 'Bearer ', which `secrets.compare_digest` compares where both texts are ASCII.
unfoldable pub compare_token : Text → Option Text → Metrics → MetricsAnswer
unfolding is_ascii
compare_token expected none m = unauthorized
compare_token expected (some provided) m =
    if not (is_ascii provided)
    then unauthorized
    else if not (is_ascii expected)
    then type_error
    else if text_eq provided expected
    then page m
    else unauthorized

-- `require_metrics_token` around `metrics_view`.
unfoldable pub require_metrics_token : Text → Text → Metrics → MetricsAnswer
unfolding compare_token after_prefix
require_metrics_token [] header m = unauthorized
require_metrics_token (c ∷ expected) header m =
    compare_token (c ∷ expected) (after_prefix (codes "Bearer ") header) m

total-append :
    (xs ys : List (Labels × ℕ))
    → total labels_eq (xs ++ ys) ≡ total labels_eq xs + total labels_eq ys
unfolding total
total-append [] ys = omega arith
total-append ((k, n) ∷ xs) ys = omega (arith, total-append xs ys)

length-map : {A B : Type 0} (f : A → B) (xs : List A) → length (map f xs) ≡ length xs
length-map f [] = refl
length-map f (x ∷ xs) = omega (arith, length-map f xs)

-- Every job is counted once: the values of the metric add up to the number of jobs of both kinds.
pub jobs_total-length :
    (protocol : ℕ → Option String) (queue : ℕ) (jobs : List Job) (db_jobs : List DbTransferJob)
    → total labels_eq (collect protocol queue jobs db_jobs).jobs ≡ length jobs + length db_jobs
unfolding collect jobs_total
jobs_total-length protocol queue jobs db_jobs = omega (
  arith,
  total-append (tally labels_eq (map (file_labels protocol) jobs))
      (tally labels_eq (map db_labels db_jobs)),
  total-tally labels_eq (map (file_labels protocol) jobs),
  total-tally labels_eq (map db_labels db_jobs),
  length-map (file_labels protocol) jobs,
  length-map db_labels db_jobs,
)
