-- ===== src/Jobs/UserTasks.antt =====
-- The user tasks of jobs.go: getUserTaskJob, ClaimUserTask, CompleteUserTask. The ids of an
-- instance and of an execution are their keys; text that is no number is an error before any of
-- this.
pub mod Claims
use flow_go.Prelude.{
  ℕ, String, Bool, true, false, not, ◌&&◌, ◌||◌, List, [], ◌∷◌, Option, none, some, ◌==◌, nat_eq,
  string_eq, if◌then◌else◌,
}
use flow_go.Prelude.Text.{is_empty, trim_space}
use flow_go.Model.{JobState, Job, is_completed}
use flow_go.Repository.Jobs.{list_jobs_by_process_instance_and_type}
use flow_go.Engine.Tx.{
  Tx, ok, err, Error, Session, ◌>>=◌, ◌>>◌, pure, fail, owner_required, user_task_completed,
  claimed_by, must_be_claimed, no_user_task_job,
}
use flow_go.Jobs.{write_job, completed_job, check}
use flow_go.Jobs.Interface.{Navigation}

abbrev pub user_task_job_type : String
user_task_job_type = "artificialflow:userTask"

-- The loop of `getUserTaskJob`: the first job of the execution.
unfoldable pub find_by_execution : ℕ → List Job → Option Job
find_by_execution execution_key [] = none
find_by_execution execution_key (job ∷ jobs) =
    if job.element_instance_key == execution_key
    then some job
    else find_by_execution execution_key jobs

user_task_found : Option Job → Tx Job
user_task_found none = fail no_user_task_job
user_task_found (some job) = pure job

unfoldable pub get_user_task_job : ℕ → ℕ → Tx Job
unfolding user_task_found find_by_execution list_jobs_by_process_instance_and_type
get_user_task_job instance_key execution_key s =
    user_task_found
      (find_by_execution execution_key
        (list_jobs_by_process_instance_and_type instance_key user_task_job_type s.db.jobs))
      s

unfoldable pub claimed_job : String → ℕ → Job → Job
claimed_job owner now job = record job {
  worker = owner;
  state = JobState.activated;
  updated_at = now;
}

-- Claimed by somebody else, and the claim is not forced.
unfoldable pub taken : Job → String → Bool → Bool
taken job owner force = not (is_empty job.worker) && not (job.worker == owner) && not force

unfoldable pub claim_found : Job → String → Bool → ℕ → Tx Job
unfolding write_job claimed_job taken
claim_found job owner force now =
    if is_completed job.state
    then fail user_task_completed
    else if taken job owner force
    then fail (claimed_by job.worker)
    else write_job (claimed_job owner now job) >> pure (claimed_job owner now job)

unfoldable pub claim_user_task : ℕ → ℕ → String → Bool → ℕ → Tx Job
unfolding get_user_task_job claim_found trim_space
claim_user_task instance_key execution_key owner force now =
    if is_empty (trim_space owner)
    then fail owner_required
    else get_user_task_job instance_key execution_key >>= λ job.
        claim_found job (trim_space owner) force now

-- Why somebody may not complete a task without force.
unfoldable pub refusal : Job → String → Bool → Option Error
refusal job owner force =
    if force
    then none
    else if is_empty job.worker
    then some must_be_claimed
    else if job.worker == owner
    then none
    else some (claimed_by job.worker)

module _ (nav : Navigation) where
  unfoldable pub complete_task_found : Job → ℕ → ℕ → String → Bool → ℕ → Tx (Unit {0})
  unfolding write_job completed_job refusal
  complete_task_found job instance_key execution_key owner force now =
      if is_completed job.state then pure tt else (do
        check (refusal job owner force)
        write_job (completed_job now job)
        nav.complete_execution instance_key execution_key)

  unfoldable pub complete_user_task : ℕ → ℕ → String → Bool → ℕ → Tx (Unit {0})
  unfolding get_user_task_job complete_task_found trim_space
  complete_user_task instance_key execution_key owner force now =
      if is_empty (trim_space owner) && not force
      then fail owner_required
      else get_user_task_job instance_key execution_key >>= λ job.
          complete_task_found job instance_key execution_key (trim_space owner) force now
