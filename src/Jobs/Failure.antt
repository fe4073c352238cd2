-- ===== src/Jobs/Failure.antt =====
-- FailJob: the retry budget of a job.
use mathlib.Core.List.{append-nil}
use flow_go.Prelude.{
  ◌++◌, ℕ, zero, suc, ◌-◌, String, ◌≡◌, refl, true, false, ◌&&◌, ◌||◌, [], ◌∷◌, Option, none, some,
  arith, ◌==◌, nat_eq, string_eq, Bool-cases, inl, inr, ltb, if◌then◌else◌,
}
use flow_go.Prelude.Int.{ℤ, pos, negsuc, ◌-ℤ◌, ltb_ℤ, pos_part}
use flow_go.Prelude.Text.{is_empty}
use flow_go.Model.{JobState, Job, Incident, is_activated, is_completed, is_failed}
use flow_go.Repository.Jobs.{get_job, key-get_job, update_columns, activatable}
use flow_go.Engine.Tx.{ok, Session, bind_ok}
use flow_go.Jobs.{
  fail_job, job_incident, fail_found, fail_unlocked, failed_job, remaining_retries, wanted_retries,
  ownership_error, read_job, check,
}
use flow_go.Jobs.Lock.{OwnsLock, ownership_iff}
use flow_go.Jobs.Completion.{read_job_ok, get_job-write_self, check_ok}

-- The retries that a failure leaves: the number that the caller gives or one fewer, and never
-- fewer than none.
abbrev pub retries_left : Option ℤ → ℤ → ℕ
retries_left none retries = pos_part retries - 1
retries_left (some n) retries = pos_part n

-- What one failure leaves: the row, and one incident about it more exactly if no retries are left.
pub record Failed (explicit : Option ℤ) (now key : ℕ) (job : Job) (s s' : Session) : Type 0 where
  pub row :
      get_job key s'.db.jobs
      ≡ some (record job {
        retries = pos (retries_left explicit job.retries);
        worker = "";
        lock_expiration_time = none;
        updated_at = now;
        state =
            if retries_left explicit job.retries == 0 then JobState.failed else JobState.created;
      })
  pub report : Incident
  pub incidents :
      s'.db.incidents
      ≡ s.db.incidents ++ (if retries_left explicit job.retries == 0 then report ∷ [] else [])
  pub about_job :
      (report.job_key ≡ key)
      × (report.process_instance_key ≡ job.process_instance_key)
      × (report.element_instance_key ≡ job.element_instance_key)

remaining-left :
    (explicit : Option ℤ) (job : Job)
    → remaining_retries explicit job ≡ pos (retries_left explicit job.retries)
unfolding remaining_retries wanted_retries
remaining-left none job =
    elim job.retries
      as (λ r. (if ltb_ℤ (r -ℤ pos 1) (pos 0) then pos 0 else r -ℤ pos 1) ≡ pos (pos_part r - 1)) [
        | pos n ↦ ground arith
        | negsuc n ↦ ground arith
      ]
remaining-left (some (pos n)) job = ground arith
remaining-left (some (negsuc n)) job = ground arith

-- The failed row, column by column.
failed_job-columns :
    (explicit : Option ℤ) (now : ℕ) (job : Job)
    → failed_job explicit now job ≡ record job {
      retries = pos (retries_left explicit job.retries);
      worker = "";
      lock_expiration_time = none;
      updated_at = now;
      state = if retries_left explicit job.retries == 0 then JobState.failed else JobState.created;
    }
unfolding failed_job
failed_job-columns explicit now job = ground (arith, remaining-left explicit job)

module _ (incident_key key : ℕ) (worker message : String) (explicit : Option ℤ) (now : ℕ) where
  fail_unlocked_ok :
      (job : Job) (s s' : Session)
      → get_job key s.db.jobs ≡ some job
      → fail_unlocked incident_key job worker message explicit now s ≡ ok (tt, s')
      → Failed explicit now key job s s'
  unfolding fail_unlocked update_columns job_incident failed_job
  fail_unlocked_ok job s s' e h = record {
    row = ground (
      arith,
      get_job-write_self key job (failed_job explicit now job) s.db.jobs e refl,
      failed_job-columns explicit now job,
    );
    report = job_incident incident_key (failed_job explicit now job) message now;
    incidents = ground (arith, failed_job-columns explicit now job, append-nil s.db.incidents);
    about_job = (key-get_job key s.db.jobs job e, refl, refl);
  }

  fail_found_ok :
      (job : Job) (s s' : Session)
      → get_job key s.db.jobs ≡ some job
      → is_completed job.state ≡ false
      → is_failed job.state ≡ false
      → fail_found incident_key job worker message explicit now s ≡ ok (tt, s')
      → (is_activated job.state ≡ true → OwnsLock job worker now) × Failed explicit now key job s s'
  unfolding fail_found
  fail_found_ok job s s' e open_ unfailed h = elim (Bool-cases (is_activated job.state)) [
    | inl active ↦
        let (_, s₁, checked, h₁) =
          bind_ok (check (ownership_error job worker now))
            (λ _. fail_unlocked incident_key job worker message explicit now) s
            (rw (open_, unfailed, active) at h) in
        let (none_wrong, same) = check_ok (ownership_error job worker now) s s₁ checked in
        (
          λ _. (ownership_iff job worker now).0 none_wrong,
          fail_unlocked_ok job s s' e (rw same at h₁),
        )
    | inr idle ↦
        (λ active. cc (active, idle), fail_unlocked_ok job s s' e (rw (open_, unfailed, idle) at h))
  ]

-- A failure report that succeeds on a job that was neither completed nor failed: if the job was
-- activated then the caller holds its lock. The row afterwards has no worker, no lock, the new
-- update time and the number of retries that the caller gives, or else one fewer than it had, but
-- never fewer than none; its state is failed if no retries are left and created otherwise, and
-- every other column is as it was. One incident, about the job, its
-- instance and its element, was created exactly if no retries are left.
pub fail_job_ok :
    (incident_key key : ℕ) (worker message : String) (explicit : Option ℤ) (now : ℕ)
    (s s' : Session) (job : Job)
    → get_job key s.db.jobs ≡ some job
    → is_completed job.state ≡ false
    → is_failed job.state ≡ false
    → fail_job incident_key key worker message explicit now s ≡ ok (tt, s')
    → (is_activated job.state ≡ true → OwnsLock job worker now) × Failed explicit now key job s s'
unfolding fail_job
fail_job_ok incident_key key worker message explicit now s s' job e open_ unfailed h =
    let (job₁, s₁, read, h₁) =
      bind_ok (read_job key) (λ x. fail_found incident_key x worker message explicit now) s h in
    let (there, same) = read_job_ok key s s₁ job₁ read in
    let it : job₁ ≡ job = cc (there, e) in
    fail_found_ok incident_key key worker message explicit now job s s' e open_ unfailed
      (rw (it, same) at h₁)

-- After a failure the job can be activated again at once, by any worker for its type, exactly if it
-- has retries left.
pub failed_job-activatable :
    (job_type : String) (t : ℕ) (explicit : Option ℤ) (now : ℕ) (job : Job)
    → activatable job_type t (failed_job explicit now job) ≡ (
        ltb_ℤ (pos 0) (remaining_retries explicit job)
        && (is_empty job_type || job.type == job_type))
unfolding activatable failed_job
failed_job-activatable job_type t explicit now job = ground arith

unfoldable pub fail_times : ℕ → ℕ → Job → Job
unfolding failed_job
fail_times zero now job = job
fail_times (suc n) now job = fail_times n now (failed_job none now job)

remaining-pos :
    (n m now : ℕ) (job : Job) → job.retries ≡ pos n → (fail_times m now job).retries ≡ pos (n - m)
unfolding fail_times remaining_retries wanted_retries failed_job
remaining-pos n zero now job e = ground arith
remaining-pos n (suc m) now job e =
    ground (arith, remaining-pos (n - 1) m now (failed_job none now job))

-- A budget of n retries is used up by the n-th failure in a row, and by no earlier one: after m + 1
-- failures that each count one retry down, the job waits for a worker again if m + 1 < n, and has
-- failed otherwise.
pub fail_times-state :
    (n m now : ℕ) (job : Job)
    → job.retries ≡ pos n
    → (fail_times (suc m) now job).state
      ≡ (if ltb (suc m) n then JobState.created else JobState.failed)
unfolding fail_times failed_job remaining_retries wanted_retries
fail_times-state n zero now job e = ground arith
fail_times-state n (suc m) now job e =
    ground (
      arith,
      fail_times-state (n - 1) m now (failed_job none now job) (remaining-pos n 1 now job e),
    )
