-- ===== src/Repository/Jobs/Keys.antt =====
-- The primary key of the job table (gorm_repository.go).
use flow_go.Prelude.{
  ℕ, String, ◌≡◌, refl, Bool, true, false, List, [], ◌∷◌, none, some, arith, ◌==◌, nat_eq, filter,
  map, All, All-filter_both, All-take, All-map, if◌then◌else◌,
}
use flow_go.Prelude.Int.{ℤ}
use flow_go.Prelude.Sorting.{order_by, All-order_by}
use flow_go.Model.{Job}
use flow_go.Repository.Jobs.{
  get_job, update_job, update_columns, get_job-update_job, activatable, clamp_max_jobs,
  list_activatable_jobs,
}

abbrev pub HasUniqueKeys : List Job → Type 0
HasUniqueKeys [] = Unit
HasUniqueKeys (job ∷ jobs) = (get_job job.key jobs ≡ none) × HasUniqueKeys jobs

pub update_job-HasUniqueKeys :
    (job : Job) (rows : List Job) → HasUniqueKeys rows → HasUniqueKeys (update_job job rows)
unfolding update_job update_columns
update_job-HasUniqueKeys job [] h = tt
update_job-HasUniqueKeys job (row ∷ rows) (fresh, h) =
    go (row.key == job.key) (update_job-HasUniqueKeys job rows h)
  where
    go :
        (b : Bool)
        → HasUniqueKeys (update_job job rows)
        → HasUniqueKeys (if b then update_columns job row ∷ rows else row ∷ update_job job rows)
    go true rest = (fresh, h)
    go false rest = (ground (arith, get_job-update_job row.key job rows), rest)

-- Each row is what a read of its key returns.
abbrev pub IsThere : List Job → Job → Type 0
IsThere rows job = get_job job.key rows ≡ some job

under :
    (row : Job) (rows : List Job) (job : Job)
    → get_job row.key rows ≡ none
    → IsThere rows job
    → IsThere (row ∷ rows) job
unfolding get_job
under row rows job fresh h = ground arith

pub unique-IsThere : (rows : List Job) → HasUniqueKeys rows → All (IsThere rows) rows
unfolding get_job
unique-IsThere [] h = tt
unique-IsThere (row ∷ rows) (fresh, h) = (
  ground (arith),
  All-map (IsThere rows) (IsThere (row ∷ rows)) (λ job. under row rows job fresh) rows
      (unique-IsThere rows h),
)

-- What `ListActivatableJobs` returns: rows of the table that may be activated, at most a hundred.
pub listed_jobs :
    (job_type : String) (max_jobs : ℤ) (now : ℕ) (rows : List Job)
    → HasUniqueKeys rows
    → All
        (λ job. (get_job job.key rows ≡ some job) × (activatable job_type now job ≡ true))
        (list_activatable_jobs job_type max_jobs now rows)
unfolding list_activatable_jobs
listed_jobs job_type max_jobs now rows h =
    let P =
      λ (job : Job). (get_job job.key rows ≡ some job) × (activatable job_type now job ≡ true) in
    All-take P (clamp_max_jobs max_jobs)
      (order_by (λ (j : Job). j.created_at) (filter (activatable job_type now) rows))
      (All-order_by (λ (j : Job). j.created_at) P (filter (activatable job_type now) rows)
        (All-filter_both (IsThere rows) (activatable job_type now) rows (unique-IsThere rows h)))

-- `update_job` as a change of every row, which is what the statement's WHERE clause says.
unfoldable pub update_row : Job → Job → Job
update_row job row = if row.key == job.key then update_columns job row else row

map-absent :
    (job : Job) (rows : List Job) → get_job job.key rows ≡ none → map (update_row job) rows ≡ rows
unfolding get_job update_row
map-absent job [] h = refl
map-absent job (row ∷ rows) h = ground (arith, map-absent job rows)

pub update_job-map :
    (job : Job) (rows : List Job)
    → HasUniqueKeys rows
    → update_job job rows ≡ map (update_row job) rows
unfolding update_job update_row
update_job-map job [] h = refl
update_job-map job (row ∷ rows) (fresh, h) =
    ground (arith, update_job-map job rows h, map-absent job rows)
