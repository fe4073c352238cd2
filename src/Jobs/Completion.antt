-- ===== src/Jobs/Completion.antt =====
-- CompleteJob: who may complete a job, and what it leaves.
use flow_go.Prelude.{
  ℕ, String, ◌≡◌, refl, true, false, List, [], ◌∷◌, Option, none, some, arith, nat_eq, Bool-cases,
  inl, inr, ap, sym, ◌∙◌, ◌++◌, ◌≢◌,
}
use flow_go.Model.{JobState, Job, is_activated, is_completed}
use flow_go.Repository.Jobs.{get_job, update_job, update_columns, get_job-update_job, key-get_job}
use flow_go.Engine.Tx.{Error, ok, Session, Tx, bind_ok, ◌>>◌, publish}
use flow_go.Jobs.{
  ownership_error, check, complete_job, complete_found, completed_job, read_job, write_job,
  merge_if_any,
}
use flow_go.Model.Event.{job_completed}
use flow_go.Jobs.Interface.{Navigation}
use flow_go.Jobs.Lock.{OwnsLock, ownership_iff}

-- A read that succeeds returns the row, and changes nothing.
pub read_job_ok :
    (key : ℕ) (s s' : Session) (job : Job)
    → read_job key s ≡ ok (job, s')
    → (get_job key s.db.jobs ≡ some job) × (s' ≡ s)
unfolding read_job
read_job_ok key s s' job h = ground arith

-- The row after a write of the job that was read from it.
pub get_job-write_self :
    (key : ℕ) (job job' : Job) (rows : List Job)
    → get_job key rows ≡ some job
    → job'.key ≡ job.key
    → get_job key (update_job job' rows) ≡ some (update_columns job' job)
get_job-write_self key job job' rows e k =
    ground (arith, get_job-update_job key job' rows, key-get_job key rows job e)

pub check_ok : (e : Option Error) (s s' : Session) → check e s ≡ ok (tt, s') → (e ≡ none) × (s' ≡ s)
check_ok none s s' h = (refl, ground arith)
check_ok (some e) s s' h = cc

is_activated-state : (state : JobState) → is_activated state ≡ true → state ≡ JobState.activated
is_activated-state state h = ground arith

-- Merging variables leaves the jobs and the incidents.
pub merge_if_any-jobs :
    (nav : Navigation) (i : ℕ) (vs : List (String × nav.Value)) (s s' : Session)
    → merge_if_any nav i vs s ≡ ok (tt, s')
    → s'.db.jobs ≡ s.db.jobs
merge_if_any-jobs nav i [] s s' h = ground arith
merge_if_any-jobs nav i (v ∷ vs) s s' h = ground arith

module _ (nav : Navigation) (worker : String) (variables : List (String × nav.Value))
    (now : ℕ) where
  -- What the tail of a completion runs, once the check has passed.
  abbrev pub finish_job : Job → Tx (Unit {0})
  finish_job job = do
    write_job (completed_job now job)
    publish (job_completed job.key worker now)
    nav.complete_execution job.process_instance_key job.element_instance_key

  -- What a completion does up to the moment when it hands the execution to the navigation engine,
  -- which it does last.
  pub record Completed (key : ℕ) (job : Job) (s s' : Session) : Type 0 where
    pub was_activated : job.state ≡ JobState.activated
    pub owns : OwnsLock job worker now
    pub merged_in : Session
    pub merge_runs : merge_if_any nav job.process_instance_key variables s ≡ ok (tt, merged_in)
    pub handed_over : Session
    pub row :
        get_job key handed_over.db.jobs
        ≡ some (record job {
          state = JobState.completed;
          lock_expiration_time = none;
          updated_at = now;
        })
    pub others : (k : ℕ) → k ≢ key → get_job k handed_over.db.jobs ≡ get_job k s.db.jobs
    pub announced : handed_over.events ≡ merged_in.events ++ job_completed key worker now ∷ []
    pub moves_on :
        nav.complete_execution job.process_instance_key job.element_instance_key handed_over
        ≡ ok (tt, s')

  -- The session that the write and the event leave.
  abbrev pub after_write : Job → Session → Session
  after_write job s = record s {
    db = record s.db { jobs = update_job (completed_job now job) s.db.jobs };
    events = s.events ++ job_completed job.key worker now ∷ [];
  }

  after_write-others :
      (key : ℕ) (job : Job) (s : Session)
      → job.key ≡ key
      → (k : ℕ) → k ≢ key
      → get_job k (after_write job s).db.jobs ≡ get_job k s.db.jobs
  unfolding completed_job
  after_write-others key job s keyed k differs =
      ground (arith, get_job-update_job k (completed_job now job) s.db.jobs, differs)

  after_write-row :
      (key : ℕ) (job : Job) (s : Session)
      → get_job key s.db.jobs ≡ some job
      → get_job key (after_write job s).db.jobs
        ≡ some (record job {
          state = JobState.completed;
          lock_expiration_time = none;
          updated_at = now;
        })
  unfolding completed_job update_columns
  after_write-row key job s e = get_job-write_self key job (completed_job now job) s.db.jobs e refl

  pub complete_found_ok :
      (key : ℕ) (job : Job) (s s' : Session)
      → get_job key s.db.jobs ≡ some job
      → is_completed job.state ≡ false
      → complete_found nav job worker variables now s ≡ ok (tt, s')
      → Completed key job s s'
  unfolding complete_found write_job
  complete_found_ok key job s s' e unfinished h = elim (Bool-cases (is_activated job.state)) [
    | inr idle ↦ cc (rw (unfinished, idle) at h)
    | inl active ↦
        let h' = rw (unfinished, active) at h in
        let (_, s₁, checked, h₁) =
          bind_ok (check (ownership_error job worker now))
            (λ _. merge_if_any nav job.process_instance_key variables >> finish_job job) s h' in
        let (none_wrong, same) = check_ok (ownership_error job worker now) s s₁ checked in
        let (_, s₂, merged, h₂) =
          bind_ok (merge_if_any nav job.process_instance_key variables) (λ _. finish_job job) s₁
            h₁ in
        let keyed = key-get_job key s.db.jobs job e in
        let merged_s : merge_if_any nav job.process_instance_key variables s ≡ ok (tt, s₂) =
          ap (merge_if_any nav job.process_instance_key variables) (sym same) ∙ merged in
        let jobs_same = merge_if_any-jobs nav job.process_instance_key variables s s₂ merged_s in
        record {
          was_activated = is_activated-state job.state active;
          owns = (ownership_iff job worker now).0 none_wrong;
          merged_in = s₂;
          merge_runs = merged_s;
          handed_over = after_write job s₂;
          row = after_write-row key job s₂ (rw jobs_same e);
          others =
              λ k differs. after_write-others key job s₂ keyed k differs ∙ ap (get_job k) jobs_same;
          announced = ap (λ x. s₂.events ++ job_completed x worker now ∷ []) keyed;
          moves_on = h₂;
        }
  ]

-- A completion that succeeds on a job that was not completed yet: the job was activated, the caller
-- is the worker that it names, and its lock had not expired. The session that is handed to the
-- navigation engine, as the last step, with the job's instance and element, holds the row with the
-- state completed, no lock and the new update time and every other column as it was, and the rows
-- of all other jobs as they were, and the completion is announced after the events of the
-- variables.
pub complete_job_ok :
    (nav : Navigation) (key : ℕ) (worker : String) (variables : List (String × nav.Value)) (now : ℕ)
    (s s' : Session) (job : Job)
    → get_job key s.db.jobs ≡ some job
    → is_completed job.state ≡ false
    → complete_job nav key worker variables now s ≡ ok (tt, s')
    → Completed nav worker variables now key job s s'
unfolding complete_job
complete_job_ok nav key worker variables now s s' job e unfinished h =
    let (job₁, s₁, read, h₁) =
      bind_ok (read_job key) (λ x. complete_found nav x worker variables now) s h in
    let (there, same) = read_job_ok key s s₁ job₁ read in
    let it : job₁ ≡ job = cc (there, e) in
    complete_found_ok nav worker variables now key job s s' e unfinished (rw (it, same) at h₁)
