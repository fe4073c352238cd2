-- ===== src/Jobs/Activation.antt =====
-- activateJobsOnce (jobs.go) and the locks that it writes.
use flow_go.Prelude.{
  ℕ, suc, ◌+◌, ◌≤◌, ◌<◌, String, ◌≡◌, ◌≢◌, refl, subst, ap, true, false, List, [], ◌∷◌, some, arith,
  ◌==◌, nat_eq, string_eq, filter, All, All-map, length, length-take-le, Bool-cases, inl, inr,
}
use flow_go.Prelude.Int.{ℤ}
use flow_go.Prelude.Sorting.{order_by}
use flow_go.Prelude.Text.{is_empty}
use flow_go.Model.{JobState, Job}
use flow_go.Repository.Jobs.{
  get_job, update_job, update_columns, activatable, list_activatable_jobs, get_job-update_job,
  clamp_max_jobs,
}
use flow_go.Repository.Jobs.Keys.{HasUniqueKeys, update_job-HasUniqueKeys, listed_jobs}
use flow_go.Engine.Tx.{ok, Session, bind_ok, pure}
use flow_go.Jobs.{activated_job, activate_each, activate_jobs_once, lock_duration_or_default}

-- The row of this key is activated, and locked until then for this worker.
pub record IsHeld (worker : String) (until : ℕ) (rows : List Job) (key : ℕ) : Type 0 where
  pub row : Job
  pub found : get_job key rows ≡ some row
  pub active : row.state ≡ JobState.activated
  pub owner : row.worker ≡ worker
  pub locked : row.lock_expiration_time ≡ some until

record IsPresent (rows : List Job) (key : ℕ) : Type 0 where
  row : Job
  found : get_job key rows ≡ some row

module _ (worker : String) (now : ℕ) (lock_duration : ℤ) where
  abbrev until : ℕ
  until = now + lock_duration_or_default lock_duration

  write-keeps :
      (job : Job) (rows : List Job) (key : ℕ)
      → IsHeld worker until rows key
      → IsHeld worker until (update_job (activated_job worker now lock_duration job) rows) key
  unfolding update_columns activated_job
  write-keeps job rows key h = elim (Bool-cases (job.key == key)) [
    | inl same ↦ record {
      row = update_columns (activated_job worker now lock_duration job) h.row;
      found =
          rw (
            get_job-update_job key (activated_job worker now lock_duration job) rows,
            same,
            h.found,
          );
      active = refl;
      owner = refl;
      locked = refl;
    }
    | inr other ↦ record {
      row = h.row;
      found =
          rw (get_job-update_job key (activated_job worker now lock_duration job) rows, other)
            h.found;
      active = h.active;
      owner = h.owner;
      locked = h.locked;
    }
  ]

  write-makes :
      (job : Job) (rows : List Job)
      → IsPresent rows job.key
      → IsHeld worker until (update_job (activated_job worker now lock_duration job) rows) job.key
  unfolding update_columns activated_job
  write-makes job rows h = record {
    row = update_columns (activated_job worker now lock_duration job) h.row;
    found = ground (
      arith,
      get_job-update_job job.key (activated_job worker now lock_duration job) rows,
      h.found,
    );
    active = refl;
    owner = refl;
    locked = refl;
  }

  write-IsPresent :
      (job : Job) (rows : List Job) (key : ℕ)
      → IsPresent rows key
      → IsPresent (update_job (activated_job worker now lock_duration job) rows) key
  unfolding update_columns activated_job
  write-IsPresent job rows key h = elim (Bool-cases (job.key == key)) [
    | inl same ↦ record {
      row = update_columns (activated_job worker now lock_duration job) h.row;
      found =
          rw (
            get_job-update_job key (activated_job worker now lock_duration job) rows,
            same,
            h.found,
          );
    }
    | inr other ↦ record {
      row = h.row;
      found =
          rw (get_job-update_job key (activated_job worker now lock_duration job) rows, other)
            h.found;
    }
  ]

  -- What the loop leaves: the rows that were held are held, and so are those it was given.
  record Activated (jobs jobs' : List Job) (before after : List Job) : Type 0 where
    keeps : (key : ℕ) → IsHeld worker until before key → IsHeld worker until after key
    held : All (λ job. IsHeld worker until after job.key) jobs'
    size : length jobs' ≡ length jobs
    keys : HasUniqueKeys before → HasUniqueKeys after

  activate_each_ok :
      (jobs : List Job) (s s' : Session) (jobs' : List Job)
      → All (λ job. IsPresent s.db.jobs job.key) jobs
      → activate_each worker now lock_duration jobs s ≡ ok (jobs', s')
      → Activated jobs jobs' s.db.jobs s'.db.jobs
  unfolding activate_each
  activate_each_ok [] s s' jobs' there h =
      let same : s ≡ s' = ground arith in
      let none_made : [] ≡ jobs' = ground arith in
      subst (λ x. Activated [] x s.db.jobs s'.db.jobs) none_made
        (subst (λ (x : Session). Activated [] [] s.db.jobs x.db.jobs) same
          (record { keeps = λ key k. k; held = tt; size = refl; keys = λ k. k }))
  activate_each_ok (job ∷ jobs) s s' jobs' (here, there) h =
      let job' = activated_job worker now lock_duration job in
      let (made, s₁, rest, done) =
        bind_ok (activate_each worker now lock_duration jobs)
          (λ (made : List Job). pure (job' ∷ made)) _ h in
      let after = update_job job' s.db.jobs in
      let later =
        activate_each_ok jobs _ s₁ made
          (All-map (λ (x : Job). IsPresent s.db.jobs x.key) (λ (x : Job). IsPresent after x.key)
            (λ x. write-IsPresent job s.db.jobs x.key) jobs there)
          rest in
      let same : s₁ ≡ s' = ground arith in
      let made_all : (job' ∷ made) ≡ jobs' = ground arith in
      subst (λ (x : List Job). Activated (job ∷ jobs) x s.db.jobs s'.db.jobs) made_all
        (subst (λ (x : Session). Activated (job ∷ jobs) (job' ∷ made) s.db.jobs x.db.jobs) same
          (record {
            keeps = λ key k. later.keeps key (write-keeps job s.db.jobs key k);
            held = (later.keeps job.key (write-makes job s.db.jobs here), later.held);
            size = ap suc later.size;
            keys = λ k. later.keys (update_job-HasUniqueKeys job' s.db.jobs k);
          }))

IsPresent-of_there :
    (rows : List Job) (job_type : String) (t : ℕ) (job : Job)
    → (get_job job.key rows ≡ some job) × (activatable job_type t job ≡ true)
    → IsPresent rows job.key
IsPresent-of_there rows job_type t job (e, _) = record { row = job; found = e }

clamp-le : (max_jobs : ℤ) → clamp_max_jobs max_jobs ≤ 100
unfolding clamp_max_jobs
clamp-le max_jobs = ground arith

length-listed :
    (job_type : String) (max_jobs : ℤ) (t : ℕ) (rows : List Job)
    → length (list_activatable_jobs job_type max_jobs t rows) ≤ 100
unfolding list_activatable_jobs
length-listed job_type max_jobs t rows = omega (
  arith,
  clamp-le max_jobs,
  length-take-le (clamp_max_jobs max_jobs)
      (order_by (λ (j : Job). j.created_at) (filter (activatable job_type t) rows)),
)

-- After an activation that succeeds on a table with unique keys, the worker has a name, at most a
-- hundred jobs were returned, each of them is held for this worker until the lock duration is over,
-- and the keys are still unique.
pub activate_jobs_once_ok :
    (job_type worker : String) (max_jobs lock_duration : ℤ) (listed_at now : ℕ) (s s' : Session)
    (jobs' : List Job)
    → HasUniqueKeys s.db.jobs
    → activate_jobs_once job_type worker max_jobs lock_duration listed_at now s ≡ ok (jobs', s')
    → (is_empty worker ≡ false)
      × (length jobs' ≤ 100)
      × All
          (λ job. IsHeld worker (now + lock_duration_or_default lock_duration) s'.db.jobs job.key)
          jobs'
      × HasUniqueKeys s'.db.jobs
unfolding activate_jobs_once
activate_jobs_once_ok job_type worker max_jobs lock_duration listed_at now s s' jobs' unique h =
    let listed = list_activatable_jobs job_type max_jobs listed_at s.db.jobs in
    let named : is_empty worker ≡ false = ground arith in
    let there =
      All-map
        (λ (job : Job).
          (get_job job.key s.db.jobs ≡ some job) × (activatable job_type listed_at job ≡ true))
        (λ (job : Job). IsPresent s.db.jobs job.key)
        (IsPresent-of_there s.db.jobs job_type listed_at) listed
        (listed_jobs job_type max_jobs listed_at s.db.jobs unique) in
    let done = activate_each_ok worker now lock_duration listed s s' jobs' there (rw named at h) in
    (
      named,
      rw done.size (length-listed job_type max_jobs listed_at s.db.jobs),
      done.held,
      done.keys unique,
    )

-- A job that is held does not match the query before its lock is over.
held_not_activatable :
    (worker job_type : String) (until t : ℕ) (rows : List Job) (key : ℕ) (job : Job)
    → IsHeld worker until rows key
    → t < until
    → get_job key rows ≡ some job
    → activatable job_type t job ≡ false
unfolding activatable
held_not_activatable worker job_type until t rows key job h before e =
    let it : h.row ≡ job = cc (h.found, e) in
    let active : job.state ≡ JobState.activated = cc (it, h.active) in
    let locked : job.lock_expiration_time ≡ some until = cc (it, h.locked) in ground arith

-- In a table with unique keys, and until the lock of an activation is over, no listing for any
-- worker or job type returns a job that the activation returned.
pub activation_exclusive :
    (job_type other_type worker : String) (max_jobs other_max lock_duration : ℤ)
    (listed_at now t : ℕ) (s s' : Session) (jobs' : List Job)
    → HasUniqueKeys s.db.jobs
    → activate_jobs_once job_type worker max_jobs lock_duration listed_at now s ≡ ok (jobs', s')
    → t < now + lock_duration_or_default lock_duration
    → All
        (λ other. All (λ job. job.key ≢ other.key) jobs')
        (list_activatable_jobs other_type other_max t s'.db.jobs)
activation_exclusive job_type other_type worker max_jobs other_max lock_duration listed_at now t s
      s' jobs' unique h before =
    let (_, _, held, unique') =
      activate_jobs_once_ok job_type worker max_jobs lock_duration listed_at now s s' jobs' unique
        h in
    let until = now + lock_duration_or_default lock_duration in
    All-map
      (λ (other : Job).
        (get_job other.key s'.db.jobs ≡ some other) × (activatable other_type t other ≡ true))
      (λ (other : Job). All (λ (job : Job). job.key ≢ other.key) jobs')
      (λ other (there, free).
        All-map (λ (job : Job). IsHeld worker until s'.db.jobs job.key)
          (λ (job : Job). job.key ≢ other.key)
          (λ job h' same.
            let h'' : IsHeld worker until s'.db.jobs other.key =
              subst (IsHeld worker until s'.db.jobs) same h' in
            cc (
              held_not_activatable worker other_type until t s'.db.jobs other.key other h'' before
                  there,
              free,
            ))
          jobs' held)
      (list_activatable_jobs other_type other_max t s'.db.jobs)
      (listed_jobs other_type other_max t s'.db.jobs unique')
