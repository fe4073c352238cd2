-- ===== src/Navigation/Executors/Work.antt =====
-- ServiceTaskExecutor of step_executors.go, which is also the executor of send tasks, and
-- executeTaskListeners of listeners.go.
use flow_go.Prelude.{
  ℕ, String, Bool, List, [], ◌∷◌, ◌++◌, Option, none, some, ◌==◌, string_eq, if◌then◌else◌,
}
use flow_go.Prelude.Int.{ℤ, pos, ◌-ℤ◌, leb_ℤ}
use flow_go.Model.{JobState, Job, IncidentState}
use flow_go.Model.Value.{Value, Variables}
use flow_go.Model.Workflow.{StepFields, TaskListener, Execution, WorkflowInstance, WorkflowStatus}
use flow_go.Repository.{Db}
use flow_go.Repository.Jobs.{get_job, update_job, create_job}
use flow_go.Navigation.Executors.Inputs.{
  or_default, connector_inputs, missing_from, changed_variables,
}
use flow_go.Navigation.Exit.{Moves}
use flow_go.Navigation.Tokens.{lift, get_executions}
use flow_go.Navigation.Variables.{get_context, update_context, persist_variables}
use flow_go.Navigation.World.{
  WorkflowDefinition, Env, Failure, execution_not_found, other, Nav, pure, fail, ◌>>=◌, ◌>>◌, asks,
  draw, store, set_context, find_execution,
}

-- What running a script answers: an error, which may be the timeout, or the globals and the value.
pub data ScriptResult : Type 0 where
  script_error : (timeout : Bool) (message : String) → ScriptResult
  script_done : (globals : Variables) (value : Value) → ScriptResult

pub data DecisionResult : Type 0 where
  undecided : String → DecisionResult
  decided : Variables → DecisionResult

-- What the executors use that is registered or evaluated elsewhere: the handlers in the process,
-- JavaScript, `reflect.DeepEqual`, EvaluateDecision, and, for a call activity, the lookups of a
-- definition, the start of an instance of it (with the context, the parent instance and the element
-- that called), which answers its status, and reading an instance back from the tables.
pub record Services : Type 0 where
  pub handler : String → Option (StepFields → Variables → Option Failure × Variables)
  pub run_script : String → Variables → ScriptResult
  pub same_value : Value → Value → Bool
  pub evaluate_decision : String → Variables → DecisionResult
  pub latest_definition : String → Option ℕ
  pub definition_with_version : String → ℤ → Option ℕ
  pub start_called : ℕ → Variables → ℕ → ℕ → Nav WorkflowStatus
  pub get_instance : ℕ → Db → Option WorkflowInstance

module _ (env : Env) (wf : WorkflowDefinition) (moves : Moves) (services : Services) where
  -- The fields that the executors give a new job.
  unfoldable pub new_job : ℕ → String → String → ℤ → StepFields → Execution → ℕ → ℕ → ℕ → Job
  new_job key id type retries fields ex instance_key created_at updated_at = record {
    key = key;
    id = id;
    type = type;
    process_instance_key = instance_key;
    element_instance_key = ex.element_instance_key;
    process_definition_key = wf.id;
    element_id = fields.id;
    worker = "";
    retries = retries;
    state = JobState.created;
    assignee = "";
    candidate_users = "";
    candidate_groups = "";
    lock_expiration_time = none;
    due_date = 0;
    breached_at = none;
    created_at = created_at;
    updated_at = updated_at;
  }

  unfoldable pub insert_job : Job → Nav (Unit {0})
  insert_job job = store (λ db. record db { jobs = create_job job db.jobs })

  -- `UpdateJob` for the job that was read or made under this key.
  unfoldable pub write_job : ℕ → Job → Nav (Unit {0})
  write_job key job =
      store (λ db. record db { jobs = update_job (record job { key = key }) db.jobs })

  -- The row under the key, or a new one.
  unfoldable pub service_job : ℕ → StepFields → Execution → Option Job → Nav Job
  service_job key fields ex (some job) = pure job
  service_job key fields ex none = do
    id ← draw env.uuid
    instance_key ← asks (λ w. w.instance_.key)
    created_at ← draw env.now
    updated_at ← draw env.now
    let job =
        new_job key id (or_default fields.implementation fields.id) (pos 3) fields ex instance_key
          created_at updated_at
    insert_job job
    pure job

  unfoldable pub set_job_state : ℕ → JobState → String → Job → Nav Job
  set_job_state key state worker job = do
    updated_at ← draw env.now
    let job' = record job { state = state; worker = worker; updated_at = updated_at }
    write_job key job'
    pure job'

  -- The result of a handler: the variables that it leaves, and its error.
  unfoldable pub handled : Option Failure × Variables → Nav (Option Failure)
  handled (e, context) = do set_context context; pure e

  unfoldable pub listener_failed : Option Failure → Nav (Unit {0})
  listener_failed none = pure tt
  listener_failed (some e) = fail (other (env.error_text e))

  unfoldable pub run_listener :
      StepFields → Option (StepFields → Variables → Option Failure × Variables) → Nav (Unit {0})
  run_listener fields none = pure tt
  run_listener fields (some handler) = do
    context ← get_context
    e ← handled (handler fields context)
    listener_failed e

  -- `executeTaskListeners`.
  unfoldable pub run_listeners : StepFields → String → List TaskListener → Nav (Unit {0})
  run_listeners fields event [] = pure tt
  run_listeners fields event (listener ∷ listeners) = do
    if listener.event == event
        then run_listener fields (services.handler listener.implementation)
        else pure tt
    run_listeners fields event listeners

  unfoldable pub persist_changed : Variables → Nav (Unit {0})
  persist_changed before = do
    context ← get_context
    instance_key ← asks (λ w. w.instance_.key)
    persist_variables env instance_key (changed_variables services.same_value before context)

  unfoldable pub job_incident : Job → String → Nav (Unit {0})
  job_incident job message = do
    key ← draw env.snowflake
    id ← draw env.uuid
    created_at ← draw env.now
    store (λ db. record db {
      incidents =
          db.incidents
          ++ record {
            key = key;
            id = id;
            process_instance_key = job.process_instance_key;
            element_instance_key = job.element_instance_key;
            job_key = job.key;
            error_type = "JOB_NO_RETRIES";
            error_message = message;
            state = IncidentState.created;
            created_at = created_at;
          }
            ∷ [];
    })

  unfoldable pub fail_job_in_process : ℕ → Job → Failure → Nav (Unit {0})
  fail_job_in_process key job e = do
    job' ←
        set_job_state key JobState.failed job.worker (record job { retries = job.retries -ℤ pos 1 })
    if leb_ℤ job'.retries (pos 0) then job_incident job' (env.error_text e) else pure tt

  -- After the handler: the error is for a boundary event if there is one.
  unfoldable pub after_handler :
      ℕ → StepFields → String → Job → Variables → Option Failure → Nav (Unit {0})
  after_handler key fields exec_id job before (some e) = elim fields.boundary_event_refs [
    | [] ↦ fail_job_in_process key job e
    | ref ∷ refs ↦ fail e
  ]
  after_handler key fields exec_id job before none = do
    persist_changed before
    run_listeners fields "end" fields.task_listeners
    set_job_state key JobState.completed job.worker job
    moves.proceed exec_id

  unfoldable pub run_in_process :
      ℕ
      → StepFields
      → String
      → Job
      → (StepFields → Variables → Option Failure × Variables)
      → Nav (Unit {0})
  run_in_process key fields exec_id job handler = do
    run_listeners fields "start" fields.task_listeners
    job' ← set_job_state key JobState.activated "internal-worker" job
    before ← get_context
    e ← handled (handler fields before)
    after_handler key fields exec_id job' before e

  unfoldable pub persist_connector_inputs : StepFields → Nav (Unit {0})
  persist_connector_inputs fields = do
    context ← get_context
    instance_key ← asks (λ w. w.instance_.key)
    update_context (missing_from context (connector_inputs fields.properties))
    persist_variables env instance_key (missing_from context (connector_inputs fields.properties))

  -- The job waits for an external worker.
  unfoldable pub await_worker : ℕ → StepFields → Job → Nav (Unit {0})
  await_worker key fields job = do
    set_job_state key JobState.created "" job
    persist_connector_inputs fields

  unfoldable pub run_service :
      ℕ
      → StepFields
      → String
      → Job
      → Option (StepFields → Variables → Option Failure × Variables)
      → Nav (Unit {0})
  run_service key fields exec_id job none = await_worker key fields job
  run_service key fields exec_id job (some handler) = run_in_process key fields exec_id job handler

  -- `ServiceTaskExecutor`.
  unfoldable pub execute_service : StepFields → String → Nav (Unit {0})
  execute_service fields exec_id = do
    executions ← get_executions
    ex ← lift (execution_not_found exec_id) (find_execution exec_id executions)
    key ← draw env.snowflake
    existing ← asks (λ w. get_job key w.session.db.jobs)
    job ← service_job key fields ex existing
    run_service key fields exec_id job
        (services.handler (or_default fields.implementation fields.id))
