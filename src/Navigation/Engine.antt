-- ===== src/Navigation/Engine.antt =====
-- `autoAdvance` of navigation.go, the table of executors (registerStepExecutors of engine.go), and
-- the functions that call one another, closed on fuel.
use flow_go.Prelude.{
  ℕ, zero, suc, String, Bool, true, false, [], ◌∷◌, ◌++◌, Option, none, some, if◌then◌else◌,
}
use flow_go.Model.{IncidentState}
use flow_go.Model.Workflow.{StepType, StepDefinition, StepFields, Execution, find_step, Steps, step}
use flow_go.Navigation.Boundary.{handle_boundary_error}
use flow_go.Navigation.Executors.{
  Publishing, execute_start, execute_catch, execute_sub_process, execute_gateway, execute_end,
}
use flow_go.Navigation.Executors.Called.{execute_call}
use flow_go.Navigation.Executors.Tasks.{execute_user_task, execute_script, execute_business_rule}
use flow_go.Navigation.Executors.Throw.{execute_throw}
use flow_go.Navigation.Executors.Work.{Services, execute_service}
use flow_go.Navigation.Exit.{Moves, wrap_error}
use flow_go.Navigation.Proceed.{proceed_token}
use flow_go.Navigation.Tokens.{lift, get_executions}
use flow_go.Navigation.Triggers.{first_start_step}
use flow_go.Navigation.Variables.{apply_input_mappings}
use flow_go.Navigation.World.{
  World, WorkflowDefinition, Env, Failure, unknown_step, out_of_fuel, input_mapping, Nav, Outcome,
  done, failed, pure, fail, ◌>>=◌, ◌>>◌, draw, store, find_execution,
}

-- An action with a handler of its error, but for the end of the fuel.
abbrev pub recovered : {A : Type 0} → (Failure → Nav A) → Outcome A × World → Outcome A × World
recovered handler (done a, w) = (done a, w)
recovered handler (failed out_of_fuel, w) = (failed out_of_fuel, w)
recovered handler (failed e, w) = handler e w

unfoldable pub recover : {A : Type 0} → Nav A → (Failure → Nav A) → Nav A
recover m handler w = recovered handler (m w)

module _ (env : Env) (wf : WorkflowDefinition) (publishing : Publishing) (services : Services)
    (notify : Nav (Unit {0})) where
  -- Steps of a type without an executor wait.
  unfoldable pub has_executor : StepType → Bool
  has_executor StepType.task = false
  has_executor StepType.gateway_complex = false
  has_executor StepType.intermediate_timer_catch_event = false
  has_executor StepType.boundary_event = false
  has_executor _ = true

  -- The executor that is registered for a type.
  unfoldable pub execute_type : Moves → StepType → StepFields → Steps → String → Nav (Unit {0})
  execute_type moves StepType.user_task fields subs exec_id =
      execute_user_task env wf moves services fields exec_id
  execute_type moves StepType.service_task fields subs exec_id =
      execute_service env wf moves services fields exec_id
  execute_type moves StepType.send_task fields subs exec_id =
      execute_service env wf moves services fields exec_id
  execute_type moves StepType.script_task fields subs exec_id =
      execute_script env wf moves services fields exec_id
  execute_type moves StepType.business_rule_task fields subs exec_id =
      execute_business_rule env wf moves services fields exec_id
  execute_type moves StepType.sub_process fields subs exec_id =
      execute_sub_process env wf moves (first_start_step subs) exec_id
  execute_type moves StepType.call_activity fields subs exec_id =
      execute_call services fields exec_id
  execute_type moves StepType.intermediate_throw_event fields subs exec_id =
      execute_throw env wf moves publishing fields exec_id
  execute_type moves StepType.intermediate_catch_event fields subs exec_id =
      execute_catch env wf moves fields exec_id
  execute_type moves StepType.start fields subs exec_id = execute_start env wf moves fields exec_id
  execute_type moves StepType.end fields subs exec_id =
      execute_end env wf moves publishing fields exec_id
  execute_type moves StepType.gateway_exclusive fields subs exec_id =
      execute_gateway env wf moves fields exec_id
  execute_type moves StepType.gateway_inclusive fields subs exec_id =
      execute_gateway env wf moves fields exec_id
  execute_type moves StepType.gateway_parallel fields subs exec_id =
      execute_gateway env wf moves fields exec_id
  execute_type moves StepType.gateway_event_based fields subs exec_id =
      execute_gateway env wf moves fields exec_id
  execute_type moves _ fields subs exec_id = pure tt

  unfoldable pub execute : Moves → StepDefinition → String → Nav (Unit {0})
  execute moves (step fields subs) exec_id = execute_type moves fields.type fields subs exec_id

  -- The incident for an error that no boundary event caught. Its process instance key is a new key.
  unfoldable pub raise_incident : Execution → Failure → Nav (Unit {0})
  raise_incident ex e = do
    key ← draw env.snowflake
    id ← draw env.uuid
    instance_key ← draw env.snowflake
    created_at ← draw env.now
    store (λ db. record db {
      incidents =
          db.incidents
          ++ record {
            key = key;
            id = id;
            process_instance_key = instance_key;
            element_instance_key = ex.element_instance_key;
            job_key = 0;
            error_type = "EXECUTION_ERROR";
            error_message = env.error_text e;
            state = IncidentState.created;
            created_at = created_at;
          }
            ∷ [];
    })

  unfoldable pub handle_error : Moves → StepFields → Execution → Failure → Nav (Unit {0})
  handle_error moves fields ex e = do
    handled ← handle_boundary_error env wf moves fields ex.id e
    if handled then pure tt else raise_incident ex e

  unfoldable pub run_step : Moves → Execution → StepDefinition → Nav (Unit {0})
  run_step moves ex (step fields subs) =
      if has_executor fields.type
      then (wrap_error input_mapping (apply_input_mappings env fields ex.id)
          >> recover (execute moves (step fields subs) ex.id) (handle_error moves fields ex))
      else pure tt

  unfoldable pub advance_execution : Moves → Option Execution → Nav (Unit {0})
  advance_execution moves none = pure tt
  advance_execution moves (some ex) = do
    found ← lift unknown_step (find_step ex.step_id wf.steps)
    run_step moves ex found

  -- `autoAdvance`.
  unfoldable pub auto_advance : Moves → String → Nav (Unit {0})
  auto_advance moves exec_id = do
    executions ← get_executions
    advance_execution moves (find_execution exec_id executions)

  -- Each unit of fuel is one level of calls.
  unfoldable pub moves_on : ℕ → Moves
  moves_on zero = record {
    proceed = λ id. fail out_of_fuel;
    advance = λ id. fail out_of_fuel;
    notify_parent = notify;
  }
  moves_on (suc fuel) =
      let moves = moves_on fuel in
      record {
        proceed = proceed_token env wf moves;
        advance = auto_advance moves;
        notify_parent = notify;
      }
