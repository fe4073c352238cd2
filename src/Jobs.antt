-- ===== src/Jobs.antt =====
-- The external-worker jobs of backend/services/workflow-command/internal/application/jobs.go:
-- activateJobsOnce, CompleteJob, FailJob, ExtendJobLock, RetryJob, ensureActiveLockOwnership, each
-- as the action that runs inside its transaction. `now` is the action's reading of the clock.
pub mod Interface
pub mod Lock
pub mod Completion
pub mod Activation
pub mod Failure
pub mod UserTasks
pub mod Sla
pub mod Idempotency
pub mod Commands
use flow_go.Prelude.{
  ℕ, ◌+◌, ◌*◌, String, Bool, true, false, not, ◌&&◌, List, [], ◌∷◌, ◌++◌, Option, none, some, ltb,
  leb, ◌==◌, string_eq, if◌then◌else◌,
}
use flow_go.Prelude.Int.{ℤ, pos, negsuc, ◌-ℤ◌, leb_ℤ, ltb_ℤ, pos_part}
use flow_go.Prelude.Text.{is_empty}
use flow_go.Model.{
  JobState, Job, Variable, IncidentState, Incident, is_activated, is_completed, is_failed,
}
use flow_go.Model.Event.{Event, job_activated, job_completed, job_failed}
use flow_go.Repository.{Db}
use flow_go.Repository.Jobs.{get_job, update_job, list_activatable_jobs}
use flow_go.Repository.Messages.{second}
use flow_go.Engine.Tx.{
  Error, Result, ok, err, Session, Tx, ◌>>=◌, ◌>>◌, pure, fail, publish, not_found, worker_required,
  no_active_lock, lock_expired, not_activated, already_completed, invalid_lock_duration, locked_by,
}
use Interface.{Navigation}

-- 30 seconds.
abbrev pub default_job_lock_duration : ℕ
default_job_lock_duration = 30 * second

found : Option Job → Tx Job
found none = fail not_found
found (some job) = pure job

unfoldable pub read_job : ℕ → Tx Job
unfolding found get_job
read_job key s = found (get_job key s.db.jobs) s

unfoldable pub write_job : Job → Tx (Unit {0})
unfolding update_job
write_job job s = ok (tt, record s { db = record s.db { jobs = update_job job s.db.jobs } })

unfoldable pub create_incident : Incident → Tx (Unit {0})
create_incident i s =
    ok (tt, record s { db = record s.db { incidents = s.db.incidents ++ i ∷ [] } })

abbrev pub check : Option Error → Tx (Unit {0})
check none = pure tt
check (some e) = fail e

unfoldable pub lock_error : Option ℕ → ℕ → Option Error
lock_error none now = some no_active_lock
lock_error (some until) now = if ltb until now then some lock_expired else none

-- `ensureActiveLockOwnership`.
unfoldable pub ownership_error : Job → String → ℕ → Option Error
unfolding lock_error
ownership_error job worker now =
    if is_empty worker
    then some worker_required
    else if job.worker == worker
    then lock_error job.lock_expiration_time now
    else some (locked_by job.worker)

abbrev pub lock_duration_or_default : ℤ → ℕ
lock_duration_or_default d = if leb_ℤ d (pos 0) then default_job_lock_duration else pos_part d

-- The row that an activation writes.
unfoldable pub activated_job : String → ℕ → ℤ → Job → Job
activated_job worker now lock_duration job = record job {
  state = JobState.activated;
  worker = worker;
  lock_expiration_time = some (now + lock_duration_or_default lock_duration);
  updated_at = now;
}

-- The loop of `activateJobsOnce`.
unfoldable pub activate_each : String → ℕ → ℤ → List Job → Tx (List Job)
unfolding write_job activated_job
activate_each worker now lock_duration [] = pure []
activate_each worker now lock_duration (job ∷ jobs) = do
  let job' = activated_job worker now lock_duration job
  write_job job'
  publish (job_activated job.key worker (now + lock_duration_or_default lock_duration))
  rest ← activate_each worker now lock_duration jobs
  pure (job' ∷ rest)

-- `listed_at` is the clock that the query of `ListActivatableJobs` reads.
unfoldable pub activate_jobs_once : String → String → ℤ → ℤ → ℕ → ℕ → Tx (List Job)
unfolding activate_each list_activatable_jobs
activate_jobs_once job_type worker max_jobs lock_duration listed_at now s =
    if is_empty worker
    then err worker_required
    else activate_each worker now lock_duration
        (list_activatable_jobs job_type max_jobs listed_at s.db.jobs) s

wanted_retries : Option ℤ → Job → ℤ
wanted_retries none job = job.retries -ℤ pos 1
wanted_retries (some n) job = n

unfoldable pub remaining_retries : Option ℤ → Job → ℤ
unfolding wanted_retries
remaining_retries explicit job =
    let wanted = wanted_retries explicit job in if ltb_ℤ wanted (pos 0) then pos 0 else wanted

-- `safeInt32` on a retry count, which is not negative here.
abbrev safe_int32 : ℤ → ℤ
safe_int32 n = if ltb_ℤ (pos 2147483647) n then pos 2147483647 else n

job_incident : ℕ → Job → String → ℕ → Incident
job_incident key job message now = record {
  key = key;
  id = "";
  process_instance_key = job.process_instance_key;
  element_instance_key = job.element_instance_key;
  job_key = job.key;
  error_type = "JOB_NO_RETRIES";
  error_message = if is_empty message then "external worker failure" else message;
  state = IncidentState.created;
  created_at = now;
}

-- The row that a failure writes.
unfoldable pub failed_job : Option ℤ → ℕ → Job → Job
unfolding remaining_retries
failed_job explicit now job =
    let remaining = remaining_retries explicit job in
    record job {
      retries = remaining;
      worker = "";
      lock_expiration_time = none;
      updated_at = now;
      state = if ltb_ℤ (pos 0) remaining then JobState.created else JobState.failed;
    }

-- The incident is dated by a reading of the clock of its own, which is taken to be the same.
fail_unlocked : ℕ → Job → String → String → Option ℤ → ℕ → Tx (Unit {0})
unfolding write_job create_incident job_incident failed_job
fail_unlocked incident_key job worker message explicit now =
    let job' = failed_job explicit now job in
    if is_failed job'.state
    then (do
      write_job job'
      publish (job_failed job.key worker (safe_int32 job'.retries) message now)
      create_incident (job_incident incident_key job' message now))
    else write_job job'

-- `incident_key` is the Snowflake that the incident draws.
unfoldable pub fail_found : ℕ → Job → String → String → Option ℤ → ℕ → Tx (Unit {0})
unfolding fail_unlocked ownership_error
fail_found incident_key job worker message explicit now =
    if is_completed job.state
    then fail already_completed
    else if is_failed job.state
    then pure tt
    else if is_activated job.state
    then check (ownership_error job worker now)
      >> fail_unlocked incident_key job worker message explicit now
    else fail_unlocked incident_key job worker message explicit now

unfoldable pub fail_job : ℕ → ℕ → String → String → Option ℤ → ℕ → Tx (Unit {0})
unfolding read_job fail_found
fail_job incident_key key worker message explicit now = do
  job ← read_job key
  fail_found incident_key job worker message explicit now

unfoldable pub extended_job : ℤ → ℕ → Job → Job
extended_job lock_duration now job = record job {
  lock_expiration_time = some (now + pos_part lock_duration);
  updated_at = now;
}

unfoldable pub extend_found : Job → String → ℤ → ℕ → Tx (Unit {0})
unfolding ownership_error write_job extended_job
extend_found job worker lock_duration now =
    if is_activated job.state
    then check (ownership_error job worker now) >> write_job (extended_job lock_duration now job)
    else fail not_activated

unfoldable pub extend_job_lock : ℕ → String → ℤ → ℕ → Tx (Unit {0})
unfolding read_job extend_found
extend_job_lock key worker lock_duration now =
    if leb_ℤ lock_duration (pos 0)
    then fail invalid_lock_duration
    else read_job key >>= λ job. extend_found job worker lock_duration now

unfoldable pub lock_is_live : Option ℕ → ℕ → Bool
lock_is_live none now = false
lock_is_live (some until) now = ltb now until

unfoldable pub retried_job : ℤ → ℕ → Job → Job
retried_job retries now job = record job {
  state = JobState.created;
  retries = if leb_ℤ retries (pos 0) then pos 3 else retries;
  worker = "";
  lock_expiration_time = none;
  updated_at = now;
}

unfoldable pub retry_found : Job → ℤ → ℕ → Tx (Unit {0})
unfolding write_job lock_is_live retried_job
retry_found job retries now =
    if is_completed job.state
    then fail already_completed
    else if is_activated job.state && lock_is_live job.lock_expiration_time now
    then fail (locked_by job.worker)
    else write_job (retried_job retries now job)

unfoldable pub retry_job : ℕ → ℤ → ℕ → Tx (Unit {0})
unfolding read_job retry_found
retry_job key retries now = do job ← read_job key; retry_found job retries now

unfoldable pub completed_job : ℕ → Job → Job
completed_job now job = record job {
  state = JobState.completed;
  lock_expiration_time = none;
  updated_at = now;
}

abbrev merged : Result (List Variable × List Event) → Tx (Unit {0})
merged (err e) s = err e
merged (ok (variables, events)) s =
    ok (tt, record s { db = record s.db { variables = variables }; events = s.events ++ events })

module _ (nav : Navigation) where
  open nav use {Value, complete_execution, merge_variables}

  abbrev merge_if_any : ℕ → List (String × Value) → Tx (Unit {0})
  merge_if_any instance_key [] s = pure tt s
  merge_if_any instance_key (v ∷ vs) s = merged (merge_variables instance_key (v ∷ vs) s) s

  unfoldable pub complete_found : Job → String → List (String × Value) → ℕ → Tx (Unit {0})
  unfolding ownership_error write_job completed_job
  complete_found job worker variables now =
      if is_completed job.state
      then pure tt
      else if is_activated job.state
      then (do
        check (ownership_error job worker now)
        merge_if_any job.process_instance_key variables
        write_job (completed_job now job)
        publish (job_completed job.key worker now)
        complete_execution job.process_instance_key job.element_instance_key)
      else fail not_activated

  unfoldable pub complete_job : ℕ → String → List (String × Value) → ℕ → Tx (Unit {0})
  unfolding read_job complete_found
  complete_job key worker variables now = do
    job ← read_job key
    complete_found job worker variables now
