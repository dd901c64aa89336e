-- ===== src/Api/Triggers.antt =====
-- The jobs that the API creates (services/web/apps/api/views.py, `trigger_connection`).
use tmask_tt.Base.{
  ◌≤◌, any, ◌==◌, ℕ, ◌≡◌, ◌⊎◌, inl, inr, refl, ap, sym, ◌∙◌, String, true, none, some, List, ◌∷◌,
  arith, Bool-cases, Option-cases,
}
use tmask_tt.Base.Text.{Text, codes}
use tmask_tt.Accounts.{User, role_level, level_of, operator}
use tmask_tt.Worker.{Result, ok, err, Result-cases}
use tmask_tt.Transfers.{Job, pending}
use tmask_tt.Transfers.Paths.{validate_transfer_path}
use tmask_tt.Api.{Server, Tables, Request, get_user_from_token, require_api_token}
use tmask_tt.Api.Start.{
  body_paths, may_trigger, paths_error, start_job, new_job, trigger_paths, trigger_connection_as,
  trigger_connection,
}

-- One pending job of this user and connection was added, with two valid paths.
abbrev pub HasAdded : User → ℕ → List Job → List Job → Type 0
HasAdded u connection jobs jobs' =
    (j : Job) × (jobs' ≡ j ∷ jobs)
    × (j.owner ≡ u.pk)
    × (j.connection ≡ some connection)
    × (j.flow ≡ none)
    × (j.status ≡ pending)
    × (validate_transfer_path (codes j.source_path) ≡ none)
    × (validate_transfer_path (codes j.destination_path) ≡ none)

HasAdded-same :
    (u : User) (connection : ℕ) (jobs jobs' others others' : List Job)
    → others ≡ jobs
    → others' ≡ jobs'
    → HasAdded u connection others others'
    → HasAdded u connection jobs jobs'
HasAdded-same u connection jobs jobs' others others' h h' (j, added, a, b, c, d, e, g) =
    (j, sym h' ∙ added ∙ ap (λ js. j ∷ js) h, a, b, c, d, e, g)

paths_error-none :
    (source dest : String)
    → paths_error source dest ≡ none
    → (validate_transfer_path (codes source) ≡ none) × (validate_transfer_path (codes dest) ≡ none)
unfolding paths_error
paths_error-none source dest h = (ground arith, ground arith)

trigger_paths_adds :
    (S : Server) (now connection : ℕ) (u : User) (t : Tables) (paths : Result (String × String))
    → ((trigger_paths S now connection u t paths).1.jobs ≡ t.jobs)
      ⊎ HasAdded u connection t.jobs (trigger_paths S now connection u t paths).1.jobs
unfolding trigger_paths start_job new_job
trigger_paths_adds S now connection u t (err e) = inl refl
trigger_paths_adds S now connection u t (ok (source, dest)) =
    elim (Option-cases (paths_error source dest)) [
      | inr (m, refusal) ↦ inl (ground arith)
      | inl fine ↦
          let (from, to) = paths_error-none source dest fine in
          let j : Job = new_job (S.new_pk t.jobs) now u.pk (some connection) none source dest in
          elim (Result-cases (S.send_task t.sent j.pk)) [
            | inr (e, broken) ↦ inr (j, ground arith, refl, refl, refl, refl, from, to)
            | inl (task, queued) ↦
                inr (
                  record j { celery_task_id = task },
                  ground arith,
                  refl,
                  refl,
                  refl,
                  refl,
                  from,
                  to,
                )
          ]
    ]

trigger_connection_as_adds :
    (S : Server) (now connection : ℕ) (r : Request) (u : User) (t : Tables)
    → ((trigger_connection_as S now connection r.body u t).1.jobs ≡ t.jobs)
      ⊎ ((may_trigger u ≡ true)
          × HasAdded u connection t.jobs (trigger_connection_as S now connection r.body u t).1.jobs)
unfolding trigger_connection_as
trigger_connection_as_adds S now connection r u t = elim (Bool-cases (may_trigger u)) [
  | inr barred ↦ inl (ground (arith, barred))
  | inl may ↦ elim (Bool-cases (any (λ pk. pk == connection) t.connections)) [
    | inr absent ↦ inl (ground (arith, may, absent))
    | inl known ↦
        let same : trigger_connection_as S now connection r.body u t
            ≡ trigger_paths S now connection u t (body_paths r.body) =
          ground (arith, may, known) in
        elim (trigger_paths_adds S now connection u t (body_paths r.body)) [
          | inl kept ↦ inl (ap (λ x. x.1.jobs) same ∙ kept)
          | inr added ↦ inr (may, rw same added)
        ]
  ]
]

get_user_from_token-jobs :
    (S : Server) (now : ℕ) (header : Text) (t : Tables)
    → (get_user_from_token S now header t).1.jobs ≡ t.jobs
unfolding get_user_from_token
get_user_from_token-jobs S now header t = ground arith

may_trigger_level : (u : User) → may_trigger u ≡ true → level_of operator ≤ role_level u
may_trigger_level u h = ground arith

-- A request to start the transfer of a connection adds no job, or the one of the user that its token
-- names: that user is an operator or an admin, and the job is pending, of that connection, with two
-- paths that are valid.
pub trigger_connection_adds :
    (S : Server) (now connection : ℕ) (r : Request) (t : Tables)
    → ((trigger_connection S now connection r t).1.jobs ≡ t.jobs)
      ⊎ ((u : User) × ((get_user_from_token S now r.authorization t).0 ≡ some u)
          × (level_of operator ≤ role_level u)
          × HasAdded u connection t.jobs (trigger_connection S now connection r t).1.jobs)
unfolding trigger_connection require_api_token
trigger_connection_adds S now connection r t =
    let (user, t') = get_user_from_token S now r.authorization t in
    let kept : t'.jobs ≡ t.jobs = get_user_from_token-jobs S now r.authorization t in
    elim (Option-cases user) [
      | inl nobody ↦ inl (ground (arith, nobody, kept))
      | inr (u, known) ↦
          let same : trigger_connection S now connection r t
              ≡ trigger_connection_as S now connection r.body u t' =
            ground (arith, known) in
          elim (trigger_connection_as_adds S now connection r u t') [
            | inl unchanged ↦ inl (ap (λ x. x.1.jobs) same ∙ unchanged ∙ kept)
            | inr (may, added) ↦ inr (
              u,
              known,
              may_trigger_level u may,
              HasAdded-same u connection t.jobs (trigger_connection S now connection r t).1.jobs
                  t'.jobs (trigger_connection_as S now connection r.body u t').1.jobs kept
                  (ap (λ x. x.1.jobs) (sym same)) added,
            )
          ]
    ]
