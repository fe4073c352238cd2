-- ===== src/Navigation/Follows/Work.antt =====
-- The executor of service tasks and the listeners are sequences of steps. The row of a job is
-- written under a drawn key.
use flow_go.Prelude.{
  ℕ, String, ◌≡◌, refl, List, [], ◌∷◌, Option, none, some, arith, ◌==◌, nat_eq, string_eq,
}
use flow_go.Model.{JobState, Job}
use flow_go.Model.Value.{Variables}
use flow_go.Model.Workflow.{StepFields, TaskListener, Execution}
use flow_go.Repository.{Db}
use flow_go.Repository.Jobs.{update_job, get_job-update_job, get_job-create_job}
use flow_go.Navigation.Executors.Work.{
  Services, insert_job, write_job, service_job, set_job_state, handled, listener_failed,
  run_listener, run_listeners, persist_changed, job_incident, fail_job_in_process, after_handler,
  run_in_process, persist_connector_inputs, await_worker, run_service, execute_service,
}
use flow_go.Navigation.Exit.{Moves}
use flow_go.Navigation.Follows.Exit.{MovesFollow}
use flow_go.Navigation.Follows.Tokens.{
  basics, get_context-Follows, update_context-Follows, persist_variables-Follows, lift-Follows,
  get_executions-Follows,
}
use flow_go.Navigation.Steps.{
  Outside, KeepsRows, drawn, Follows, pure-Follows, fail-Follows, bind-Follows, then-Follows,
  store-Follows, if-Follows, go_on,
}
use flow_go.Navigation.World.{WorkflowDefinition, Env, Failure, Nav, fail, draw, ◌>>=◌}

module _ (env : Env) (out : Outside) where
  -- What follows a draw has to do so for the answers alone.
  pub drawn-Follows :
      {A B : Type 0} (f : ℕ → A) (k : A → Nav B)
      → ((n : ℕ) → Follows env out (k (f n)))
      → Follows env out (draw f >>= k)
  unfolding draw ◌>>=◌
  drawn-Follows f k h = record { path = λ w. go_on w _ _ (drawn w _) ((h w.draws).path _) }

  write_job-keeps :
      (n : ℕ) (job : Job) (db : Db)
      → job.key ≡ env.snowflake n
      → KeepsRows env.snowflake db (record db { jobs = update_job job db.jobs })
  write_job-keeps n job db same k row fresh h =
      ground (arith, get_job-update_job k job db.jobs, fresh n)

module _ (env : Env) (out : Outside) (wf : WorkflowDefinition) (moves : Moves)
    (back : MovesFollow env out moves) (services : Services) where
  open back use {proceed_follows}

  pub insert_job-Follows : (job : Job) → Follows env out (insert_job env wf moves services job)
  unfolding insert_job
  insert_job-Follows job =
      store-Follows env out _ (λ db k row fresh h. get_job-create_job k row job db.jobs h)

  write_job-Follows :
      (n : ℕ) (job : Job) → Follows env out (write_job env wf moves services (env.snowflake n) job)
  unfolding write_job
  write_job-Follows n job =
      store-Follows env out _
        (λ db. write_job-keeps env out n (record job { key = env.snowflake n }) db refl)

  service_job-Follows :
      (key : ℕ) (fields : StepFields) (ex : Execution) (o : Option Job)
      → Follows env out (service_job env wf moves services key fields ex o)
  unfolding service_job
  service_job-Follows key fields ex (some job) = pure-Follows env out job
  service_job-Follows key fields ex none = search (basics, insert_job-Follows) depth 12

  set_state-Follows :
      (n : ℕ) (state : JobState) (worker : String) (job : Job)
      → Follows env out (set_job_state env wf moves services (env.snowflake n) state worker job)
  unfolding set_job_state
  set_state-Follows n state worker job = search (basics, write_job-Follows) depth 8

  handled-Follows :
      (r : Option Failure × Variables) → Follows env out (handled env wf moves services r)
  unfolding handled
  handled-Follows (e, context) = search basics

  listener_failed-Follows :
      (e : Option Failure) → Follows env out (listener_failed env wf moves services e)
  unfolding listener_failed
  listener_failed-Follows none = pure-Follows env out tt
  listener_failed-Follows (some e) = fail-Follows env out _

  run_listener-Follows :
      (fields : StepFields) (h : Option (StepFields → Variables → Option Failure × Variables))
      → Follows env out (run_listener env wf moves services fields h)
  unfolding run_listener
  run_listener-Follows fields none = pure-Follows env out tt
  run_listener-Follows fields (some handler) =
      search (basics, get_context-Follows, handled-Follows, listener_failed-Follows) depth 8

  pub run_listeners-Follows :
      (fields : StepFields) (event : String) (ls : List TaskListener)
      → Follows env out (run_listeners env wf moves services fields event ls)
  unfolding run_listeners
  run_listeners-Follows fields event [] = pure-Follows env out tt
  run_listeners-Follows fields event (l ∷ ls) =
      then-Follows env out _ _
        (if-Follows env out (l.event == event) _ _ (run_listener-Follows fields _)
          (pure-Follows env out tt))
        (run_listeners-Follows fields event ls)

  pub persist_changed-Follows :
      (before : Variables) → Follows env out (persist_changed env wf moves services before)
  unfolding persist_changed
  persist_changed-Follows before =
      search (basics, get_context-Follows, persist_variables-Follows) depth 8

  job_incident-Follows :
      (job : Job) (message : String)
      → Follows env out (job_incident env wf moves services job message)
  unfolding job_incident
  job_incident-Follows job message = search basics depth 10

  fail_job-Follows :
      (n : ℕ) (job : Job) (e : Failure)
      → Follows env out (fail_job_in_process env wf moves services (env.snowflake n) job e)
  unfolding fail_job_in_process
  fail_job-Follows n job e = search (basics, set_state-Follows, job_incident-Follows) depth 8

  after_handler-Follows :
      (n : ℕ) (fields : StepFields) (id : String) (job : Job) (before : Variables)
      (e : Option Failure)
      → Follows env out
          (after_handler env wf moves services (env.snowflake n) fields id job before e)
  unfolding after_handler
  after_handler-Follows n fields id job before (some e) = go fields.boundary_event_refs
    where
      go :
          (refs : List String)
          → Follows env out (elim refs [
            | [] ↦ fail_job_in_process env wf moves services (env.snowflake n) job e
            | ref ∷ rest ↦ fail e
          ])
      go [] = fail_job-Follows n job e
      go (ref ∷ rest) = fail-Follows env out e
  after_handler-Follows n fields id job before none =
      search
        (basics, persist_changed-Follows, run_listeners-Follows, set_state-Follows, proceed_follows)
        depth 10

  run_in_process-Follows :
      (n : ℕ) (fields : StepFields) (id : String) (job : Job)
      (h : StepFields → Variables → Option Failure × Variables)
      → Follows env out (run_in_process env wf moves services (env.snowflake n) fields id job h)
  unfolding run_in_process
  run_in_process-Follows n fields id job h =
      search
        (
          basics, run_listeners-Follows, set_state-Follows, get_context-Follows, handled-Follows,
          after_handler-Follows,
        )
        depth 12

  connector_inputs-Follows :
      (fields : StepFields)
      → Follows env out (persist_connector_inputs env wf moves services fields)
  unfolding persist_connector_inputs
  connector_inputs-Follows fields =
      search (basics, get_context-Follows, update_context-Follows, persist_variables-Follows) depth
        10

  await_worker-Follows :
      (n : ℕ) (fields : StepFields) (job : Job)
      → Follows env out (await_worker env wf moves services (env.snowflake n) fields job)
  unfolding await_worker
  await_worker-Follows n fields job =
      search (basics, set_state-Follows, connector_inputs-Follows) depth 8

  run_service-Follows :
      (n : ℕ) (fields : StepFields) (id : String) (job : Job)
      (h : Option (StepFields → Variables → Option Failure × Variables))
      → Follows env out (run_service env wf moves services (env.snowflake n) fields id job h)
  unfolding run_service
  run_service-Follows n fields id job none = await_worker-Follows n fields job
  run_service-Follows n fields id job (some h) = run_in_process-Follows n fields id job h

  pub execute_service-Follows :
      (fields : StepFields) (id : String)
      → Follows env out (execute_service env wf moves services fields id)
  unfolding execute_service
  execute_service-Follows fields id =
      bind-Follows env out _ _ (get_executions-Follows env out) (λ executions.
        bind-Follows env out _ _ (lift-Follows env out _ _) (λ ex.
          drawn-Follows env out env.snowflake _
            (λ n. search (basics, service_job-Follows, run_service-Follows) depth 8)))
