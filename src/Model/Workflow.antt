-- ===== src/Model/Workflow.antt =====
-- Workflow definitions and instances (backend/libs/model/types.go). An instance's id is its key in
-- text, so the model has the key. The names of workflows and steps are left out.
use flow_go.Prelude.{
  ℕ, String, Bool, true, false, List, Option, none, some, ◌==◌, string_eq, if◌then◌else◌,
}
use flow_go.Model.Value.{Variables}

pub data StepType : Type 0 where
  start end : StepType
  gateway_exclusive gateway_inclusive gateway_parallel gateway_complex gateway_event_based :
      StepType
  task user_task service_task script_task send_task receive_task manual_task : StepType
  business_rule_task sub_process call_activity event_sub_process : StepType
  intermediate_catch_event intermediate_timer_catch_event intermediate_throw_event : StepType
  boundary_event : StepType

pub record Transition : Type 0 where
  pub id : String
  pub target_ref : String
  pub condition : String

pub record TaskListener : Type 0 where
  pub event : String
  pub implementation : String

-- The fields of a step other than its sub-steps.
pub record StepFields : Type 0 where
  pub id : String
  pub type : StepType
  pub incoming : List String
  pub outgoing : List Transition
  pub implementation : String
  pub boundary_event_refs : List String
  pub default_flow : String
  pub properties : Variables
  pub loop_type : String
  pub loop_collection : String
  pub loop_element : String
  pub task_listeners : List TaskListener
  pub input_parameters : List (String × String)
  pub output_parameters : List (String × String)

mutual
  pub data StepDefinition : Type 0 where
    step : StepFields → Steps → StepDefinition

  -- The list of steps, which a step holds again.
  pub data Steps : Type 0 where
    no_steps : Steps
    add_step : StepDefinition → Steps → Steps

pub data ExecutionStatus : Type 0 where
  active waiting completed terminated cancelled : ExecutionStatus

pub record Execution : Type 0 where
  pub id : String
  pub step_id : String
  pub status : ExecutionStatus
  pub parent_id : String
  pub start_time : ℕ
  pub element_instance_key : ℕ

abbrev pub is_active : ExecutionStatus → Bool
is_active ExecutionStatus.active = true
is_active _ = false

abbrev pub is_completed_token : ExecutionStatus → Bool
is_completed_token ExecutionStatus.completed = true
is_completed_token _ = false

pub data WorkflowStatus : Type 0 where
  pending running completed failed : WorkflowStatus

pub record WorkflowInstance : Type 0 where
  pub key : ℕ
  pub workflow_key : ℕ
  pub status : WorkflowStatus
  pub parent_instance : Option ℕ
  pub parent_execution_id : String
  pub executions : List Execution
  pub context : Variables

abbrev pub is_completed_instance : WorkflowStatus → Bool
is_completed_instance WorkflowStatus.completed = true
is_completed_instance _ = false

abbrev first_of : Option StepDefinition → Option StepDefinition → Option StepDefinition
first_of (some s) rest = some s
first_of none rest = rest

-- `findStep`: the steps in order, each before its sub-steps.
unfoldable mutual
  pub find_in_step : String → StepDefinition → Option StepDefinition
  find_in_step id (step fields subs) =
      if fields.id == id then some (step fields subs) else find_step id subs

  pub find_step : String → Steps → Option StepDefinition
  find_step id no_steps = none
  find_step id (add_step s ss) = first_of (find_in_step id s) (find_step id ss)

abbrev pub fields_of : StepDefinition → StepFields
fields_of (step fields subs) = fields

-- The loops over `wf.Steps` alone, which do not enter sub-steps.
unfoldable pub find_top_step : String → Steps → Option StepFields
find_top_step id no_steps = none
find_top_step id (add_step (step fields subs) ss) =
    let rest = find_top_step id ss in if fields.id == id then some fields else rest

-- The texts of the constants `StepType…`.
unfoldable pub type_name : StepType → String
type_name StepType.start = "START"
type_name StepType.end = "END"
type_name StepType.gateway_exclusive = "EXCLUSIVE_GATEWAY"
type_name StepType.gateway_inclusive = "INCLUSIVE_GATEWAY"
type_name StepType.gateway_parallel = "PARALLEL_GATEWAY"
type_name StepType.gateway_complex = "COMPLEX_GATEWAY"
type_name StepType.gateway_event_based = "EVENT_BASED_GATEWAY"
type_name StepType.task = "TASK"
type_name StepType.user_task = "USER_TASK"
type_name StepType.service_task = "SERVICE_TASK"
type_name StepType.script_task = "SCRIPT_TASK"
type_name StepType.send_task = "SEND_TASK"
type_name StepType.receive_task = "RECEIVE_TASK"
type_name StepType.manual_task = "MANUAL_TASK"
type_name StepType.business_rule_task = "BUSINESS_RULE_TASK"
type_name StepType.sub_process = "SUB_PROCESS"
type_name StepType.call_activity = "CALL_ACTIVITY"
type_name StepType.event_sub_process = "EVENT_SUB_PROCESS"
type_name StepType.intermediate_catch_event = "INTERMEDIATE_CATCH_EVENT"
type_name StepType.intermediate_timer_catch_event = "INTERMEDIATE_TIMER_CATCH_EVENT"
type_name StepType.intermediate_throw_event = "INTERMEDIATE_THROW_EVENT"
type_name StepType.boundary_event = "BOUNDARY_EVENT"
