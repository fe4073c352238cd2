-- ===== src/Navigation/Executors/Tasks.antt =====
-- UserTaskExecutor, ScriptTaskExecutor and BusinessRuleTaskExecutor of step_executors.go.
use flow_go.Prelude.{
  ℕ, String, Bool, ◌||◌, [], ◌∷◌, ◌++◌, Option, none, some, ◌==◌, string_eq, if◌then◌else◌,
}
use flow_go.Prelude.Int.{pos}
use flow_go.Prelude.Text.{is_empty, trim_space}
use flow_go.Model.{Job, IncidentState}
use flow_go.Model.Event.{job_created}
use flow_go.Model.Value.{Value, Variables, text_at}
use flow_go.Model.Workflow.{StepFields, Execution}
use flow_go.Jobs.UserTasks.{user_task_job_type}
use flow_go.Repository.Jobs.{get_job}
use flow_go.Timers.Schedule.{add_time, parse_iso8601_duration}
use flow_go.Navigation.Executors.Inputs.{exported, object_of}
use flow_go.Navigation.Executors.Work.{
  ScriptResult, script_error, script_done, DecisionResult, undecided, decided, Services, new_job,
  insert_job, run_listeners, persist_changed,
}
use flow_go.Navigation.Exit.{Moves}
use flow_go.Navigation.Tokens.{lift, get_executions}
use flow_go.Navigation.Variables.{get_context, update_context, persist_variables}
use flow_go.Navigation.World.{
  WorkflowDefinition, Env, execution_not_found, other, Nav, pure, fail, ◌>>=◌, ◌>>◌, asks, draw,
  store, emit, find_execution,
}

abbrev due_of : Option ℕ → ℕ
due_of none = 0
due_of (some t) = t

abbrev key_of : Option Execution → ℕ
key_of none = 0
key_of (some ex) = ex.element_instance_key

module _ (env : Env) (wf : WorkflowDefinition) (moves : Moves) (services : Services) where
  -- The property `due_date`: a duration from now, or an instant, or none.
  unfoldable pub due_date : String → ℕ → ℕ
  due_date text now = if is_empty text then 0 else elim (parse_iso8601_duration env.clock text) [
    | some d ↦ add_time now d
    | none ↦ due_of (env.clock.parse_time "2006-01-02T15:04:05Z07:00" text)
  ]

  unfoldable pub user_task_job : ℕ → String → StepFields → Execution → ℕ → ℕ → ℕ → ℕ → Job
  user_task_job key id fields ex instance_key due created_at updated_at =
      record (new_job env wf moves services key id user_task_job_type (pos 1) fields ex instance_key
        created_at updated_at) {
          assignee = text_at "assignee" fields.properties;
          candidate_users = text_at "candidate_users" fields.properties;
          candidate_groups = text_at "candidate_groups" fields.properties;
          due_date = due;
        }

  unfoldable pub announce_job : Job → Nav (Unit {0})
  announce_job job = emit (
      job_created job.key job.id job.type job.process_instance_key job.element_instance_key
        job.process_definition_key job.element_id job.created_at)

  -- An existing job is left alone.
  unfoldable pub create_user_task : ℕ → StepFields → Execution → Option Job → Nav (Unit {0})
  create_user_task key fields ex (some job) = pure tt
  create_user_task key fields ex none = do
    now ← draw env.now
    id ← draw env.uuid
    instance_key ← asks (λ w. w.instance_.key)
    created_at ← draw env.now
    updated_at ← draw env.now
    let job =
        user_task_job key id fields ex instance_key
          (due_date (text_at "due_date" fields.properties) now) created_at updated_at
    insert_job env wf moves services job
    announce_job job
    run_listeners env wf moves services fields "create" fields.task_listeners
    if is_empty job.assignee
        then pure tt
        else run_listeners env wf moves services fields "assignment" fields.task_listeners

  -- `UserTaskExecutor`.
  unfoldable pub execute_user_task : StepFields → String → Nav (Unit {0})
  execute_user_task fields exec_id = do
    executions ← get_executions
    ex ← lift (execution_not_found exec_id) (find_execution exec_id executions)
    key ← draw env.snowflake
    existing ← asks (λ w. get_job key w.session.db.jobs)
    create_user_task key fields ex existing

  unfoldable pub script_incident : Bool → String → String → Nav (Unit {0})
  script_incident timeout message exec_id = do
    executions ← get_executions
    instance_key ← asks (λ w. w.instance_.key)
    key ← draw env.snowflake
    id ← draw env.uuid
    created_at ← draw env.now
    store (λ db. record db {
      incidents =
          db.incidents
          ++ record {
            key = key;
            id = id;
            process_instance_key = instance_key;
            element_instance_key = key_of (find_execution exec_id executions);
            job_key = 0;
            error_type = if timeout then "SCRIPT_TIMEOUT" else "SCRIPT_ERROR";
            error_message = message;
            state = IncidentState.created;
            created_at = created_at;
          }
            ∷ [];
    })

  abbrev result_update : String → Value → Variables
  result_update name value = if is_empty name then [] else (name, value) ∷ []

  unfoldable pub after_script : StepFields → String → ScriptResult → Nav (Unit {0})
  after_script fields exec_id (script_error timeout message) = do
    script_incident timeout message exec_id
    fail (other message)
  after_script fields exec_id (script_done globals value) = do
    before ← get_context
    update_context (exported globals)
    update_context (result_update (text_at "result_variable" fields.properties) value)
    persist_changed env wf moves services before
    moves.proceed exec_id

  abbrev is_javascript : String → Bool
  is_javascript format = is_empty format || format == "javascript" || format == "js"

  -- `ScriptTaskExecutor`.
  unfoldable pub execute_script : StepFields → String → Nav (Unit {0})
  execute_script fields exec_id = do
    context ← get_context
    if is_empty (text_at "script" fields.properties)
        then moves.proceed exec_id
        else if is_javascript (text_at "script_format" fields.properties)
        then after_script fields exec_id
            (services.run_script (text_at "script" fields.properties) context)
        else fail (other "unsupported script format")

  abbrev result_variable : StepFields → String
  result_variable fields =
      if is_empty (trim_space (text_at "result_variable" fields.properties))
      then "decisionResult"
      else text_at "result_variable" fields.properties

  unfoldable pub after_decision : StepFields → String → DecisionResult → Nav (Unit {0})
  after_decision fields exec_id (undecided message) = fail (other message)
  after_decision fields exec_id (decided outputs) = do
    let updates = (result_variable fields, Value.object (object_of outputs)) ∷ outputs
    update_context updates
    instance_key ← asks (λ w. w.instance_.key)
    persist_variables env instance_key updates
    moves.proceed exec_id

  -- `BusinessRuleTaskExecutor`.
  unfoldable pub execute_business_rule : StepFields → String → Nav (Unit {0})
  execute_business_rule fields exec_id = do
    context ← get_context
    if is_empty (trim_space (text_at "decision_ref" fields.properties))
        then moves.proceed exec_id
        else after_decision fields exec_id
            (services.evaluate_decision (text_at "decision_ref" fields.properties) context)
