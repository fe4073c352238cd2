-- ===== src/Jobs/Sla.antt =====
-- The SLA sweep of backend/services/workflow-command/internal/application/events.go (CheckSLAs):
-- the overdue jobs are listed outside any transaction, and each is then written back in one of its
-- own.
use flow_go.Prelude.{ℕ, suc, ◌≡◌, sym, false, String, some, List, [], ◌∷◌, ◌++◌, refl, arith}
use flow_go.Model.{Job, IncidentState, Incident}
use flow_go.Repository.Jobs.{
  get_job, update_columns, overdue, list_overdue_jobs, key-get_job, update_job,
}
use flow_go.Engine.Codec.{Codec}
use flow_go.Engine.Tx.{Result, ok, err, Error, Tx, TxEnv, Engine, Session, ◌>>◌, with_tx}
use flow_go.Jobs.{write_job, create_incident}
use flow_go.Jobs.Completion.{get_job-write_self}
use flow_go.Jobs.Interface.{Navigation}

abbrev pub breach_code : String
breach_code = "user-task.due-date.breached"

unfoldable pub breached_job : ℕ → Job → Job
breached_job now job = record job { breached_at = some now; updated_at = now }

unfoldable breach_incident : ℕ → String → String → Job → ℕ → Incident
breach_incident key id message job now = record {
  key = key;
  id = id;
  process_instance_key = job.process_instance_key;
  element_instance_key = job.element_instance_key;
  job_key = job.key;
  error_type = "SLA_DUE_DATE_BREACHED";
  error_message = message;
  state = IncidentState.created;
  created_at = now;
}

-- The transaction for one listed job. `incident_key`, `id` and `message` are the values that the
-- incident's key, id and text are computed to.
unfoldable pub breach : Navigation → ℕ → String → String → ℕ → Job → Tx (Unit {0})
unfolding write_job breached_job create_incident breach_incident
breach nav incident_key id message now job = do
  write_job (breached_job now job)
  create_incident (breach_incident incident_key id message (breached_job now job) now)
  nav.publish_escalation breach_code (breached_job now job) incident_key

-- What a job's transaction meets: the incident's key, id and text, and the transaction's own.
pub record SlaEnv : Type 0 where
  pub incident_key : ℕ
  pub id : String
  pub message : String
  pub tx : TxEnv

with_error : Result (Unit {0}) → List Error → List Error
with_error (ok _) errors = errors
with_error (err e) errors = e ∷ errors

module _ (codec : Codec) (max_attempts : ℕ) (nav : Navigation) (now : ℕ) where
  -- The loop: an error is kept for the end, and the next job is tried.
  unfoldable pub breach_each : (ℕ → SlaEnv) → List Job → Engine → List Error × Engine
  unfolding breach with_tx with_error
  breach_each envs [] eng = ([], eng)
  breach_each envs (job ∷ jobs) eng =
      let env = envs 0 in
      let (r, eng') =
        with_tx codec max_attempts env.tx (breach nav env.incident_key env.id env.message now job)
          eng in
      let (errors, eng'') = breach_each (λ n. envs (suc n)) jobs eng' in
      (with_error r errors, eng'')

  unfoldable pub check_slas : (ℕ → SlaEnv) → Engine → List Error × Engine
  unfolding breach_each list_overdue_jobs
  check_slas envs eng = breach_each envs (list_overdue_jobs now eng.db.jobs) eng

-- What the transaction of one job leaves, `listed` being the row that the listing returned and
-- `row` the row at the time of the transaction. The session that announces the breach holds, for
-- the job, the columns that the listing returned; announcing is the last that happens.
pub record Breached (nav : Navigation) (now : ℕ) (listed row : Job) (s s' : Session) : Type 0 where
  pub handed_over : Session
  pub written : Job
  pub there : get_job listed.key handed_over.db.jobs ≡ some written
  pub columns : written ≡ record row {
    worker = listed.worker;
    lock_expiration_time = listed.lock_expiration_time;
    retries = listed.retries;
    state = listed.state;
    assignee = listed.assignee;
    candidate_users = listed.candidate_users;
    candidate_groups = listed.candidate_groups;
    breached_at = some now;
    updated_at = now;
  }
  pub once : (t : ℕ) → overdue t written ≡ false
  pub report : Incident
  pub reported : handed_over.db.incidents ≡ s.db.incidents ++ report ∷ []
  pub about : report.job_key ≡ listed.key
  pub announces :
      nav.publish_escalation breach_code (breached_job now listed) report.key handed_over
      ≡ ok (tt, s')

-- The session that the two writes of a breach leave.
abbrev breach_written : ℕ → String → String → ℕ → Job → Session → Session
breach_written incident_key id message now listed s = record s {
  db = record s.db {
    jobs = update_job (breached_job now listed) s.db.jobs;
    incidents =
        s.db.incidents
        ++ breach_incident incident_key id message (breached_job now listed) now ∷ [];
  };
}

-- A breach that is recorded sets the job's breach time, so that no later sweep lists it again,
-- adds one incident about the job, and writes back every other column that changes in the life of
-- a job as it was when it was listed: a job that was completed between the listing and its
-- transaction is taken back to the state, the worker and the lock that it was listed with. The
-- session that holds this is the one in which the escalation is then published.
pub breach_ok :
    (nav : Navigation) (incident_key : ℕ) (id message : String) (now : ℕ) (listed row : Job)
    (s s' : Session)
    → get_job listed.key s.db.jobs ≡ some row
    → breach nav incident_key id message now listed s ≡ ok (tt, s')
    → Breached nav now listed row s s'
unfolding breach update_columns breached_job write_job create_incident overdue breach_incident
breach_ok nav incident_key id message now listed row s s' e h = record {
  handed_over = breach_written incident_key id message now listed s;
  written = update_columns (breached_job now listed) row;
  there =
      get_job-write_self listed.key row (breached_job now listed) s.db.jobs e
        (sym (key-get_job listed.key s.db.jobs row e));
  columns = refl;
  once = λ t. ground arith;
  report = breach_incident incident_key id message (breached_job now listed) now;
  reported = refl;
  about = refl;
  announces = h;
}
