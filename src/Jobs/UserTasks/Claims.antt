-- ===== src/Jobs/UserTasks/Claims.antt =====
-- Who may claim and who may complete a user task.
use flow_go.Prelude.{
  ℕ, String, ◌≡◌, ◌≢◌, Bool, false, ◌&&◌, ◌||◌, List, [], ◌∷◌, some, arith, eq_iff, ◌==◌, nat_eq,
  string_eq, map, filter,
}
use flow_go.Prelude.Sorting.{order_by-map, filter-map}
use flow_go.Prelude.Text.{is_empty, trim_space}
use flow_go.Model.{JobState, Job}
use flow_go.Repository.Jobs.{update_job, update_columns, list_jobs_by_process_instance_and_type}
use flow_go.Repository.Jobs.Keys.{HasUniqueKeys, update_row, update_job-map}
use flow_go.Engine.Tx.{ok, err, Session, bind_ok, claimed_by}
use flow_go.Jobs.Interface.{Navigation}
use flow_go.Jobs.UserTasks.{
  find_by_execution, get_user_task_job, claimed_job, taken, claim_found, claim_user_task, refusal,
  complete_task_found, complete_user_task, user_task_job_type,
}

list-update :
    (i : ℕ) (t : String) (job : Job) (rows : List Job)
    → HasUniqueKeys rows
    → list_jobs_by_process_instance_and_type i t (update_job job rows)
      ≡ map (update_row job) (list_jobs_by_process_instance_and_type i t rows)
unfolding list_jobs_by_process_instance_and_type update_row update_columns
list-update i t job rows h =
    let p = λ (j : Job). j.process_instance_key == i && (is_empty t || j.type == t) in
    let kept = filter-map (update_row job) p (λ x. ground arith) rows in
    let sorted =
      order_by-map (update_row job) (λ (j : Job). j.created_at) (λ x. ground arith)
        (filter p rows) in
    cc (update_job-map job rows h, kept, sorted)

find-map :
    (e : ℕ) (job found : Job) (rows : List Job)
    → find_by_execution e rows ≡ some found
    → find_by_execution e (map (update_row job) rows) ≡ some (update_row job found)
unfolding find_by_execution update_row update_columns
find-map e job found [] h = cc
find-map e job found (row ∷ rows) h = ground (arith, find-map e job found rows)

update_row-claimed :
    (owner : String) (now : ℕ) (job : Job)
    → update_row (claimed_job owner now job) job ≡ claimed_job owner now job
unfolding update_row update_columns claimed_job
update_row-claimed owner now job = ground arith

-- The task's job after a write of what a claim makes of it.
get_user_task_job-claimed :
    (i e : ℕ) (owner : String) (now : ℕ) (s s' s'' : Session) (job : Job)
    → HasUniqueKeys s.db.jobs
    → get_user_task_job i e s ≡ ok (job, s')
    → s''.db.jobs ≡ update_job (claimed_job owner now job) s.db.jobs
    → get_user_task_job i e s'' ≡ ok (claimed_job owner now job, s'')
unfolding get_user_task_job
get_user_task_job-claimed i e owner now s s' s'' job unique h w = ground (
  arith,
  list-update i user_task_job_type (claimed_job owner now job) s.db.jobs unique,
  find-map e (claimed_job owner now job) job
      (list_jobs_by_process_instance_and_type i user_task_job_type s.db.jobs),
  update_row-claimed owner now job,
)

-- What a claim that succeeds leaves.
pub record Claimed (i e : ℕ) (owner : String) (job' : Job) (s' : Session) : Type 0 where
  pub named : is_empty owner ≡ false
  pub worker : job'.worker ≡ owner
  pub active : job'.state ≡ JobState.activated
  pub read_back : get_user_task_job i e s' ≡ ok (job', s')

claim_found_ok :
    (i e : ℕ) (owner : String) (force : Bool) (now : ℕ) (s s' : Session) (job job' : Job)
    → HasUniqueKeys s.db.jobs
    → is_empty owner ≡ false
    → get_user_task_job i e s ≡ ok (job, s)
    → claim_found job owner force now s ≡ ok (job', s')
    → Claimed i e owner job' s'
unfolding claim_found claimed_job
claim_found_ok i e owner force now s s' job job' unique named h c =
    let made : job' ≡ claimed_job owner now job = ground arith in
    let wrote : s'.db.jobs ≡ update_job (claimed_job owner now job) s.db.jobs = ground arith in
    let read = get_user_task_job-claimed i e owner now s s s' job unique h wrote in
    record { named = named; worker = cc made; active = cc made; read_back = rw made read }

get_user_task_job-same :
    (i e : ℕ) (s s' : Session) (job : Job) → get_user_task_job i e s ≡ ok (job, s') → s' ≡ s
unfolding get_user_task_job
get_user_task_job-same i e s s' job h = ground arith

-- A claim that succeeds on a table with unique keys has an owner whose name is not blank; the job
-- of the task is then activated, names the owner, blanks around the name removed, and is what the
-- next read of the task finds.
pub claim_user_task_ok :
    (i e : ℕ) (owner : String) (force : Bool) (now : ℕ) (s s' : Session) (job' : Job)
    → HasUniqueKeys s.db.jobs
    → claim_user_task i e owner force now s ≡ ok (job', s')
    → Claimed i e (trim_space owner) job' s'
unfolding claim_user_task
claim_user_task_ok i e owner force now s s' job' unique h =
    let named : is_empty (trim_space owner) ≡ false = ground arith in
    let (job, s₁, read, h₁) =
      bind_ok (get_user_task_job i e) (λ job. claim_found job (trim_space owner) force now) s
        (rw named at h) in
    let same = get_user_task_job-same i e s s₁ job read in
    claim_found_ok i e (trim_space owner) force now s s' job job' unique named (rw same at read)
      (rw same at h₁)

-- After a claim that succeeds on a table with unique keys, and until the tables change, a claim by
-- another owner, with a name, that is not forced is refused with the name of the first owner, and
-- so is a completion.
pub claim_user_task-excludes :
    (nav : Navigation) (i e : ℕ) (owner other : String) (force : Bool) (now now' : ℕ)
    (s s' : Session) (job' : Job)
    → HasUniqueKeys s.db.jobs
    → claim_user_task i e owner force now s ≡ ok (job', s')
    → is_empty (trim_space other) ≡ false
    → trim_space owner ≢ trim_space other
    → (claim_user_task i e other false now' s' ≡ err (claimed_by (trim_space owner)))
      × (complete_user_task nav i e other false now' s' ≡ err (claimed_by (trim_space owner)))
unfolding claim_user_task complete_user_task claim_found complete_task_found taken refusal
claim_user_task-excludes nav i e owner other force now now' s s' job' unique h named differ =
    let c = claim_user_task_ok i e owner force now s s' job' unique h in
    (
      ground (
        arith,
        c.named,
        c.worker,
        c.active,
        c.read_back,
        eq_iff (trim_space owner) (trim_space other),
      ),
      ground (
        arith,
        c.named,
        c.worker,
        c.active,
        c.read_back,
        eq_iff (trim_space owner) (trim_space other),
      ),
    )
