-- ===== src/Jobs/Commands.antt =====
-- The commands that workers and operators send about a job (CompleteJob, FailJob, ExtendJobLock and
-- RetryJob of jobs.go), as one type.
pub mod Frame
use flow_go.Prelude.{
  ℕ, ◌≤◌, ◌<◌, String, ◌≡◌, ◌≢◌, refl, Bool, true, false, ◌&&◌, List, [], ◌∷◌, Option, none, some,
  arith, eq_iff, ◌==◌, nat_eq, string_eq, ◌⊎◌, inl, inr, Bool-cases, if◌then◌else◌,
}
use flow_go.Prelude.Int.{ℤ}
use flow_go.Model.{Job, JobState, is_activated, is_completed, is_failed}
use flow_go.Repository.Jobs.{get_job, update_job, get_job-update_job, key-get_job}
use flow_go.Engine.Tx.{Tx, ok, Session, bind_ok, ◌>>=◌, ◌>>◌}
use flow_go.Jobs.{
  check, complete_job, complete_found, completed_job, extend_found, extend_job_lock, extended_job,
  fail_found, fail_unlocked, fail_job, failed_job, merge_if_any, ownership_error, read_job,
  retried_job, retry_found, retry_job, write_job, lock_is_live,
}
use flow_go.Jobs.Completion.{check_ok, read_job_ok}
use flow_go.Jobs.Interface.{Navigation}
use flow_go.Jobs.Lock.{OwnsLock, ownership_iff}

pub data Command (V : Type 0) : Type 0 where
  complete : (key : ℕ) (worker : String) (variables : List (String × V)) → Command V
  fail : (incident_key key : ℕ) (worker message : String) (retries : Option ℤ) → Command V
  extend_lock : (key : ℕ) (worker : String) (lock_duration : ℤ) → Command V
  retry : (key : ℕ) (retries : ℤ) → Command V

unfoldable pub run : (nav : Navigation) → ℕ → Command nav.Value → Tx (Unit {0})
unfolding complete_job fail_job extend_job_lock retry_job
run nav now (complete key worker variables) = complete_job nav key worker variables now
run nav now (fail incident_key key worker message retries) =
    fail_job incident_key key worker message retries now
run nav now (extend_lock key worker lock_duration) = extend_job_lock key worker lock_duration now
run nav now (retry key retries) = retry_job key retries now

-- The job that a command is about.
unfoldable pub target : {V : Type 0} → Command V → ℕ
target (complete key worker variables) = key
target (fail incident_key key worker message retries) = key
target (extend_lock key worker lock_duration) = key
target (retry key retries) = key

write-other :
    (k : ℕ) (job' : Job) (s s' : Session)
    → (job'.key == k) ≡ false
    → write_job job' s ≡ ok (tt, s')
    → get_job k s'.db.jobs ≡ get_job k s.db.jobs
unfolding write_job
write-other k job' s s' h e = ground (arith, get_job-update_job k job' s.db.jobs)

fail_unlocked-other :
    (incident_key k : ℕ) (job : Job) (worker message : String) (explicit : Option ℤ) (now : ℕ)
    (s s' : Session)
    → (job.key == k) ≡ false
    → fail_unlocked incident_key job worker message explicit now s ≡ ok (tt, s')
    → get_job k s'.db.jobs ≡ get_job k s.db.jobs
unfolding fail_unlocked write_job failed_job
fail_unlocked-other incident_key k job worker message explicit now s s' h e =
    ground (arith, get_job-update_job k (failed_job explicit now job) s.db.jobs)

fail_found-other :
    (incident_key k : ℕ) (job : Job) (worker message : String) (explicit : Option ℤ) (now : ℕ)
    (s s' : Session)
    → (job.key == k) ≡ false
    → fail_found incident_key job worker message explicit now s ≡ ok (tt, s')
    → get_job k s'.db.jobs ≡ get_job k s.db.jobs
unfolding fail_found
fail_found-other incident_key k job worker message explicit now s s' h e = ground (
  arith,
  fail_unlocked-other incident_key k job worker message explicit now s s' h,
  check_ok (ownership_error job worker now) s,
)

extend_found-other :
    (k : ℕ) (job : Job) (worker : String) (d : ℤ) (now : ℕ) (s s' : Session)
    → (job.key == k) ≡ false
    → extend_found job worker d now s ≡ ok (tt, s')
    → get_job k s'.db.jobs ≡ get_job k s.db.jobs
unfolding extend_found write_job extended_job
extend_found-other k job worker d now s s' h e = ground (
  arith,
  get_job-update_job k (extended_job d now job) s.db.jobs,
  check_ok (ownership_error job worker now) s,
)

retry_found-other :
    (k : ℕ) (job : Job) (retries : ℤ) (now : ℕ) (s s' : Session)
    → (job.key == k) ≡ false
    → retry_found job retries now s ≡ ok (tt, s')
    → get_job k s'.db.jobs ≡ get_job k s.db.jobs
unfolding retry_found write_job retried_job
retry_found-other k job retries now s s' h e =
    ground (arith, get_job-update_job k (retried_job retries now job) s.db.jobs)

-- A check that its caller passes.
owner_passes :
    (job : Job) (worker : String) (now : ℕ)
    → ownership_error job worker now ≡ none
    → job.worker ≡ worker
owner_passes job worker now h = ((ownership_iff job worker now).0 h).same

-- No command rewrites the row: it is completed, or it is locked and the command comes from no
-- owner.
pub record IsProtected (now : ℕ) (sender : Option String) (job : Job) : Type 0 where
  pub shield :
      (is_completed job.state ≡ true)
      ⊎ ((is_activated job.state ≡ true)
          × (lock_is_live job.lock_expiration_time now ≡ true)
          × (sender ≢ some job.worker))

module _ (now : ℕ) (job : Job) (s s' : Session) where
  fail_found-IsProtected :
      (incident_key : ℕ) (worker message : String) (explicit : Option ℤ)
      → IsProtected now (some worker) job
      → fail_found incident_key job worker message explicit now s ≡ ok (tt, s')
      → s' ≡ s
  unfolding fail_found
  fail_found-IsProtected incident_key worker message explicit p e = elim p.shield [
    | inl done ↦ ground arith
    | inr (active, live, differ) ↦
        ground
          (arith, owner_passes job worker now, check_ok (ownership_error job worker now) s, differ)
  ]

  extend_found-IsProtected :
      (worker : String) (d : ℤ)
      → IsProtected now (some worker) job
      → extend_found job worker d now s ≡ ok (tt, s')
      → s' ≡ s
  unfolding extend_found
  extend_found-IsProtected worker d p e = elim p.shield [
    | inl done ↦ ground arith
    | inr (active, live, differ) ↦
        ground
          (arith, owner_passes job worker now, check_ok (ownership_error job worker now) s, differ)
  ]

  retry_found-IsProtected :
      (retries : ℤ)
      → IsProtected now none job
      → retry_found job retries now s ≡ ok (tt, s')
      → s' ≡ s
  unfolding retry_found
  retry_found-IsProtected retries p e = elim p.shield [
    | inl done ↦ ground arith
    | inr (active, live, differ) ↦ ground arith
  ]

  complete_found-IsProtected :
      (nav : Navigation) (worker : String) (variables : List (String × nav.Value))
      → IsProtected now (some worker) job
      → complete_found nav job worker variables now s ≡ ok (tt, s')
      → s' ≡ s
  unfolding complete_found
  complete_found-IsProtected nav worker variables p e = elim p.shield [
    | inl done ↦ ground arith
    | inr (active, live, differ) ↦
        ground
          (arith, owner_passes job worker now, check_ok (ownership_error job worker now) s, differ)
  ]
