-- ===== src/Repository/Jobs.antt =====
-- The job table of gorm_repository.go: CreateJob, GetJob, UpdateJob, ListActivatableJobs,
-- ListJobsByProcessInstanceAndType, ListOverdueJobs.
pub mod Keys
use flow_go.Prelude.{
  ℕ, String, ◌≡◌, Bool, true, false, ◌&&◌, ◌||◌, List, [], ◌∷◌, ◌++◌, Option, none, some, arith,
  ltb, leb, ◌==◌, nat_eq, string_eq, filter, take, if◌then◌else◌,
}
use flow_go.Prelude.Int.{ℤ, pos, ltb_ℤ, leb_ℤ, pos_part}
use flow_go.Prelude.Sorting.{order_by}
use flow_go.Prelude.Text.{is_empty}
use flow_go.Model.{Job, is_created, is_activated}

-- `First(&job, "key = ?", key)`; `none` is gorm's ErrRecordNotFound.
unfoldable pub get_job : ℕ → List Job → Option Job
get_job k [] = none
get_job k (j ∷ js) = if j.key == k then some j else get_job k js

unfoldable pub create_job : Job → List Job → List Job
create_job job rows = rows ++ job ∷ []

-- A new row hides none.
pub get_job-create_job :
    (k : ℕ) (job new : Job) (rows : List Job)
    → get_job k rows ≡ some job
    → get_job k (create_job new rows) ≡ some job
unfolding get_job create_job
get_job-create_job k job new [] h = cc h
get_job-create_job k job new (row ∷ rows) h = ground (arith, get_job-create_job k job new rows)

-- The columns that `UpdateJob` writes; the others keep what the row had.
unfoldable pub update_columns : Job → Job → Job
update_columns job row = record row {
  worker = job.worker;
  lock_expiration_time = job.lock_expiration_time;
  retries = job.retries;
  state = job.state;
  assignee = job.assignee;
  candidate_users = job.candidate_users;
  candidate_groups = job.candidate_groups;
  breached_at = job.breached_at;
  updated_at = job.updated_at;
}

-- `Model(job).Updates(...)`: the row with the job's primary key.
unfoldable pub update_job : Job → List Job → List Job
update_job job [] = []
update_job job (row ∷ rows) =
    if row.key == job.key then update_columns job row ∷ rows else row ∷ update_job job rows

unfoldable pub lock_lapsed : Option ℕ → ℕ → Bool
lock_lapsed none now = false
lock_lapsed (some until) now = leb until now

-- The WHERE clause of `ListActivatableJobs`. An empty job type matches every job;
-- `compatibleJobTypes` returns its argument alone.
unfoldable pub activatable : String → ℕ → Job → Bool
unfolding lock_lapsed
activatable job_type now job =
    (is_created job.state || is_activated job.state && lock_lapsed job.lock_expiration_time now)
    && ltb_ℤ (pos 0) job.retries
    && (is_empty job_type || job.type == job_type)

-- `maxJobs` of 0 or less means 1, and more than 100 means 100.
unfoldable pub clamp_max_jobs : ℤ → ℕ
clamp_max_jobs max_jobs =
    if leb_ℤ max_jobs (pos 0)
    then 1
    else if ltb_ℤ (pos 100) max_jobs
    then 100
    else pos_part max_jobs

unfoldable pub list_activatable_jobs : String → ℤ → ℕ → List Job → List Job
unfolding activatable clamp_max_jobs
list_activatable_jobs job_type max_jobs now jobs =
    take (clamp_max_jobs max_jobs)
      (order_by (λ j. j.created_at) (filter (activatable job_type now) jobs))

unfoldable pub list_jobs_by_process_instance_and_type : ℕ → String → List Job → List Job
list_jobs_by_process_instance_and_type process_instance_key job_type jobs =
    order_by (λ j. j.created_at)
      (filter
        (λ j.
          j.process_instance_key == process_instance_key
          && (is_empty job_type || j.type == job_type))
        jobs)

unfoldable pub is_unset : Option ℕ → Bool
is_unset none = true
is_unset (some _) = false

-- Created or activated, with a due date that is set and past, and not yet breached.
unfoldable pub overdue : ℕ → Job → Bool
unfolding is_unset
overdue now job =
    (is_created job.state || is_activated job.state)
    && ltb 0 job.due_date
    && leb job.due_date now
    && is_unset job.breached_at

unfoldable pub list_overdue_jobs : ℕ → List Job → List Job
unfolding overdue
list_overdue_jobs now = filter (overdue now)

abbrev pub updated : Job → Option Job → Option Job
updated job none = none
updated job (some row) = some (update_columns job row)

-- A read after an update: the row with the job's key has the new columns, the others are as before.
pub get_job-update_job :
    (k : ℕ) (job : Job) (rows : List Job)
    → get_job k (update_job job rows)
      ≡ (if job.key == k then updated job (get_job k rows) else get_job k rows)
unfolding get_job update_job update_columns
get_job-update_job k job [] = ground arith
get_job-update_job k job (row ∷ rows) = ground (arith, get_job-update_job k job rows)

-- A job that a read returns has the key that was asked for.
pub key-get_job : (k : ℕ) (rows : List Job) (job : Job) → get_job k rows ≡ some job → job.key ≡ k
unfolding get_job
key-get_job k [] job h = cc
key-get_job k (row ∷ rows) job h = ground (arith, key-get_job k rows job)
