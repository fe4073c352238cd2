-- ===== src/Examples/Jobs.antt =====
-- Runs of the job operations.
use flow_go.Prelude.{
  inl, ◌+◌, ◌≤◌, ◌≡◌, ◌≢◌, refl, true, false, ◌&&◌, ◌||◌, List, [], ◌∷◌, none, some, arith, eq_iff,
  length, All, filter, if◌then◌else◌, ltb, ◌==◌, string_eq,
}
use flow_go.Prelude.Int.{pos, ltb_ℤ}
use flow_go.Prelude.Sorting.{order_by}
use flow_go.Prelude.Text.{is_empty, trim_space}
use flow_go.Model.{JobState, Job, IncidentState, Incident, is_activated}
use flow_go.Model.Event.{job_activated, job_completed}
use flow_go.Engine.Metrics.{new_engine_metrics}
use flow_go.Engine.Tx.{Session, ok, err, claimed_by}
use flow_go.Repository.Jobs.{get_job, update_columns, activatable, list_activatable_jobs}
use flow_go.Repository.Jobs.Keys.{HasUniqueKeys}
use flow_go.Jobs.{
  activate_jobs_once, lock_duration_or_default, complete_job, completed_job, fail_job, failed_job,
  remaining_retries,
}
use flow_go.Jobs.Activation.{IsHeld, activate_jobs_once_ok, activation_exclusive}
use flow_go.Jobs.Commands.{complete, run, target}
use flow_go.Jobs.Commands.Frame.{Left, Spares, run-Spares}
use flow_go.Jobs.Completion.{Completed, complete_job_ok}
use flow_go.Jobs.Failure.{Failed, fail_job_ok, failed_job-activatable, fail_times, fail_times-state}
use flow_go.Jobs.Idempotency.{
  has_processed_idempotency_key, record_idempotency_key, is_blank, same_command,
  has_processed-record,
}
use flow_go.Jobs.Lock.{OwnsLock}
use flow_go.Jobs.Sla.{Breached, breach, breached_job, breach_ok}
use flow_go.Jobs.UserTasks.{claim_user_task, complete_user_task}
use flow_go.Jobs.UserTasks.Claims.{Claimed, claim_user_task_ok, claim_user_task-excludes}
use flow_go.Examples.{mail_job, held_job, user_task, db_of, idle_navigation}

abbrev session_of : List Job → Session
session_of jobs = record { db = db_of jobs; events = [] }

abbrev activated : Session
activated = record { db = db_of (held_job ∷ []); events = job_activated 7 "w1" 15 ∷ [] }

one_key : HasUniqueKeys (mail_job ∷ [])
unfolding get_job
one_key = (refl, tt)

activation_runs :
    activate_jobs_once "mail" "w1" (pos 5) (pos 5) 10 10 (session_of (mail_job ∷ []))
    ≡ ok (held_job ∷ [], activated)
unfolding activate_jobs_once order_by filter update_columns
activation_runs = refl

activation_exclusive_example :
    All
      (λ other. All (λ (job : Job). job.key ≢ other.key) (held_job ∷ []))
      (list_activatable_jobs "" (pos 100) 14 activated.db.jobs)
activation_exclusive_example =
    activation_exclusive "mail" "" "w1" (pos 5) (pos 100) (pos 5) 10 10 14
      (session_of (mail_job ∷ [])) activated (held_job ∷ []) one_key activation_runs (omega arith)

activate_jobs_once_ok_example :
    (is_empty "w1" ≡ false)
    × (length (held_job ∷ []) ≤ 100)
    × All
        (λ (job : Job).
          IsHeld "w1" (10 + lock_duration_or_default (pos 5)) activated.db.jobs job.key)
        (held_job ∷ [])
    × HasUniqueKeys activated.db.jobs
activate_jobs_once_ok_example =
    activate_jobs_once_ok "mail" "w1" (pos 5) (pos 5) 10 10 (session_of (mail_job ∷ [])) activated
      (held_job ∷ []) one_key activation_runs

abbrev done : Session
done = record { db = db_of (completed_job 12 held_job ∷ []); events = job_completed 7 "w1" 12 ∷ [] }

held_found : get_job 7 (held_job ∷ []) ≡ some held_job
unfolding get_job
held_found = refl

completion_runs :
    complete_job idle_navigation 7 "w1" [] 12 (session_of (held_job ∷ [])) ≡ ok (tt, done)
unfolding complete_job update_columns completed_job
completion_runs = refl

complete_job_ok_example :
    Completed idle_navigation "w1" [] 12 7 held_job (session_of (held_job ∷ [])) done
complete_job_ok_example =
    complete_job_ok idle_navigation 7 "w1" [] 12 (session_of (held_job ∷ [])) done held_job
      held_found refl completion_runs

abbrev after_failure : Session
after_failure = session_of (failed_job none 12 held_job ∷ [])

failure_runs :
    fail_job 90 7 "w1" "boom" none 12 (session_of (held_job ∷ [])) ≡ ok (tt, after_failure)
unfolding fail_job update_columns failed_job
failure_runs = refl

fail_job_ok_example :
    (is_activated held_job.state ≡ true → OwnsLock held_job "w1" 12)
    × Failed none 12 7 held_job (session_of (held_job ∷ [])) after_failure
fail_job_ok_example =
    fail_job_ok 90 7 "w1" "boom" none 12 (session_of (held_job ∷ [])) after_failure held_job
      held_found refl refl failure_runs

failed_job-activatable_example : activatable "mail" 12 (failed_job none 12 held_job) ≡ (
    ltb_ℤ (pos 0) (remaining_retries none held_job) && (is_empty "mail" || held_job.type == "mail"))
failed_job-activatable_example = failed_job-activatable "mail" 12 none 12 held_job

fail_times-state_example :
    (fail_times 3 12 held_job).state ≡ (if ltb 3 3 then JobState.created else JobState.failed)
fail_times-state_example = fail_times-state 3 2 12 held_job refl

abbrev claimed_task : Job
claimed_task = record user_task { worker = "ann"; state = JobState.activated; updated_at = 20 }

claim_runs :
    claim_user_task 3 5 " ann " false 20 (session_of (user_task ∷ []))
    ≡ ok (claimed_task, session_of (claimed_task ∷ []))
unfolding claim_user_task order_by filter update_columns
claim_runs = refl

one_task : HasUniqueKeys (user_task ∷ [])
unfolding get_job
one_task = (refl, tt)

claim_user_task_ok_example :
    Claimed 3 5 (trim_space " ann ") claimed_task (session_of (claimed_task ∷ []))
claim_user_task_ok_example =
    claim_user_task_ok 3 5 " ann " false 20 (session_of (user_task ∷ []))
      (session_of (claimed_task ∷ [])) claimed_task one_task claim_runs

bob_is_named : is_empty (trim_space "bob") ≡ false
unfolding trim_space
bob_is_named = refl

ann-is-not-bob : trim_space " ann " ≢ trim_space "bob"
unfolding trim_space
ann-is-not-bob h = ground (arith, eq_iff "ann" "bob")

claim_user_task-excludes_example :
    (claim_user_task 3 5 "bob" false 21 (session_of (claimed_task ∷ []))
      ≡ err (claimed_by (trim_space " ann ")))
    × (complete_user_task idle_navigation 3 5 "bob" false 21 (session_of (claimed_task ∷ []))
        ≡ err (claimed_by (trim_space " ann ")))
claim_user_task-excludes_example =
    claim_user_task-excludes idle_navigation 3 5 " ann " "bob" false 20 21
      (session_of (user_task ∷ [])) (session_of (claimed_task ∷ [])) claimed_task one_task
      claim_runs bob_is_named ann-is-not-bob

abbrev breach_report : Incident
breach_report = record {
  key = 90;
  id = "i";
  process_instance_key = 3;
  element_instance_key = 4;
  job_key = 7;
  error_type = "SLA_DUE_DATE_BREACHED";
  error_message = "late";
  state = IncidentState.created;
  created_at = 30;
}

abbrev breached : List Job → Session
breached jobs = record { db = record (db_of jobs) { incidents = breach_report ∷ [] }; events = [] }

-- A job that was completed after it was listed.
completed_found : get_job 7 (completed_job 29 held_job ∷ []) ≡ some (completed_job 29 held_job)
unfolding get_job completed_job
completed_found = refl

late_breach_runs :
    breach idle_navigation 90 "i" "late" 30 held_job (session_of (completed_job 29 held_job ∷ []))
    ≡ ok (tt, breached (breached_job 30 held_job ∷ []))
unfolding breach update_columns breached_job completed_job
late_breach_runs = refl

breach_ok_example :
    Breached idle_navigation 30 held_job
      (completed_job 29 held_job)
      (session_of (completed_job 29 held_job ∷ []))
      (breached (breached_job 30 held_job ∷ []))
breach_ok_example =
    breach_ok idle_navigation 90 "i" "late" 30 held_job (completed_job 29 held_job)
      (session_of (completed_job 29 held_job ∷ [])) (breached (breached_job 30 held_job ∷ []))
      completed_found late_breach_runs

has_processed-record_example :
    (has_processed_idempotency_key "k" "start"
      (record_idempotency_key " k" "start" 5 [])
      new_engine_metrics).0
    ≡ (if is_blank "k" "start"
        then false
        else same_command " k" "start" "k" "start"
          || (has_processed_idempotency_key "k" "start" [] new_engine_metrics).0)
has_processed-record_example = has_processed-record " k" "start" "k" "start" 5 [] new_engine_metrics

abbrev two_jobs : Session
two_jobs = record {
  db = db_of (completed_job 12 held_job ∷ user_task ∷ []);
  events = job_completed 7 "w1" 12 ∷ [];
}

command_runs :
    run idle_navigation 12 (complete 7 "w1" []) (session_of (held_job ∷ user_task ∷ []))
    ≡ ok (tt, two_jobs)
unfolding run update_columns completed_job
command_runs = refl

task_found : get_job 8 (held_job ∷ user_task ∷ []) ≡ some user_task
unfolding get_job
task_found = refl

about_another_job : Spares {V = idle_navigation.Value} 12 (complete 7 "w1" []) 8 user_task
unfolding target
about_another_job = inl refl

run-Spares_example :
    Left idle_navigation 7 8 user_task (session_of (held_job ∷ user_task ∷ [])) two_jobs
unfolding target
run-Spares_example =
    run-Spares idle_navigation 12 (complete 7 "w1" []) 8 user_task
      (session_of (held_job ∷ user_task ∷ [])) two_jobs task_found about_another_job command_runs
