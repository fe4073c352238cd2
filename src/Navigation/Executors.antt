-- ===== src/Navigation/Executors.antt =====
-- The executors of step_executors.go that move tokens; those of jobs are in the child.
pub mod Inputs
pub mod Work
pub mod Tasks
pub mod Throw
pub mod Called
use flow_go.Prelude.{
  ℕ, String, Bool, true, false, not, ◌&&◌, ◌||◌, List, [], ◌∷◌, map, Option, none, some, ltb, ◌==◌,
  nat_eq, string_eq, length, if◌then◌else◌,
}
use flow_go.Prelude.Assoc.{lookup}
use flow_go.Prelude.Text.{is_empty, trim_space}
use flow_go.Model.{ElementState}
use flow_go.Model.Value.{Value, Variables, text_at}
use flow_go.Model.Workflow.{
  StepType, StepDefinition, StepFields, Steps, Execution, ExecutionStatus, is_active, step,
  no_steps, add_step, type_name,
}
use flow_go.Gateway.{check_gateway_join, evaluate_condition}
use flow_go.Navigation.Arrival.{is_boundary_event}
use flow_go.Navigation.Boundary.{cancel_transaction_scope}
use flow_go.Navigation.Exit.{Moves}
use flow_go.Navigation.Tokens.{
  lift, get_executions, execution_at, new_execution, end_element, create_scoped_element,
}
use flow_go.Navigation.Triggers.{
  EventKind, is_waiting, first_start_step, try_start_event_sub_processes, trigger_compensation,
}
use flow_go.Navigation.Variables.{get_context}
use flow_go.Navigation.World.{
  World, WorkflowDefinition, Env, Failure, bpmn_error, step_not_found, endless_search, Nav, Outcome,
  done, failed, pure, fail, ◌>>=◌, ◌>>◌, asks, modify_at, change_executions, set_status,
  append_execution, index_of, find_execution,
}

-- What reaches other instances: publishSignal, publishMessage and publishEscalation.
pub record Publishing : Type 0 where
  pub publish_signal : String → Nav (Unit {0})
  pub publish_message : String → String → Nav (Unit {0})
  pub publish_escalation : String → Nav (Unit {0})

-- An action whose error is dropped, but for the end of the fuel.
abbrev pub forgotten : Outcome (Unit {0}) × World → Outcome (Unit {0}) × World
forgotten (done a, w) = (done a, w)
forgotten (failed Failure.out_of_fuel, w) = (failed Failure.out_of_fuel, w)
forgotten (failed e, w) = (done tt, w)

unfoldable pub forget_error : Nav (Unit {0}) → Nav (Unit {0})
forget_error m w = forgotten (m w)

abbrev pub definition_is : String → StepFields → Bool
definition_is name fields = text_at "event_definition_type" fields.properties == name

abbrev pub has_text : String → StepFields → Bool
has_text name fields = not (is_empty (text_at name fields.properties))

unfoldable pub thrown_error : StepFields → Failure
thrown_error fields =
    bpmn_error (text_at "error_code" fields.properties) (text_at "error_message" fields.properties)

-- `findLinkCatchStep`: only catches are looked at, and below them.
abbrev or_found : Option StepFields → Option StepFields → Option StepFields
or_found none rest = rest
or_found (some fields) rest = some fields

abbrev is_catch : StepType → Bool
is_catch StepType.intermediate_catch_event = true
is_catch _ = false

unfoldable mutual
  pub link_catch_in : String → StepDefinition → Option StepFields
  link_catch_in name (step fields subs) =
      if is_catch fields.type
      then if trim_space (text_at "link_name" fields.properties) == name
        then some fields
        else find_link_catch name subs
      else none

  pub find_link_catch : String → Steps → Option StepFields
  find_link_catch name no_steps = none
  find_link_catch name (add_step s ss) = or_found (link_catch_in name s) (find_link_catch name ss)

-- A terminate end event cancels every other token that is active or waiting.
unfoldable pub cancelled_unless : String → Execution → Execution
cancelled_unless exec_id ex =
    if not (ex.id == exec_id) && (is_active ex.status || is_waiting ex.status)
    then record ex { status = ExecutionStatus.cancelled }
    else ex

module _ (env : Env) (wf : WorkflowDefinition) (moves : Moves) where
  unfoldable pub condition_holds : String → Nav Bool
  condition_holds condition =
      asks (λ w. evaluate_condition (env.javascript w.instance_.context) condition)

  unfoldable pub proceed_unless : Bool → String → Nav (Unit {0})
  proceed_unless stays exec_id = if stays then pure tt else moves.proceed exec_id

  -- `StartEventExecutor`.
  unfoldable pub execute_start : StepFields → String → Nav (Unit {0})
  execute_start fields exec_id = do
    holds ← condition_holds (text_at "condition" fields.properties)
    proceed_unless (definition_is "conditional" fields && has_text "condition" fields && not holds)
        exec_id

  -- `IntermediateCatchEventExecutor`.
  unfoldable pub execute_catch : StepFields → String → Nav (Unit {0})
  execute_catch fields exec_id = do
    holds ← condition_holds (text_at "condition" fields.properties)
    proceed_unless
        (not (
          definition_is "link" fields
          || definition_is "conditional" fields && has_text "condition" fields && holds))
        exec_id

  -- `SubProcessExecutor`: a token for the start event inside.
  unfoldable pub start_inside : String → StepFields → Nav (Unit {0})
  start_inside exec_id start = do
    child ← new_execution env start.id exec_id
    create_scoped_element env wf child "" (type_name start.type)
    append_execution child
    moves.advance child.id

  unfoldable pub execute_sub_process : Option StepFields → String → Nav (Unit {0})
  execute_sub_process none exec_id = moves.proceed exec_id
  execute_sub_process (some start) exec_id = start_inside exec_id start

  -- The tokens that a join consumes, other than the one that arrived.
  unfoldable pub consume : String → Option Execution → ℕ → Nav (Unit {0})
  consume exec_id none i = pure tt
  consume exec_id (some ex) i =
      if ex.id == exec_id
      then pure tt
      else (set_status i ExecutionStatus.completed
          >> end_element env ElementState.completed ex.element_instance_key)

  unfoldable pub consume_each : String → List ℕ → Nav (Unit {0})
  consume_each exec_id [] = pure tt
  consume_each exec_id (i ∷ is) = do
    ex ← execution_at i
    consume exec_id (some ex) i
    consume_each exec_id is

  unfoldable pub pass_join : String → Bool × List ℕ → Nav (Unit {0})
  pass_join exec_id (false, indices) = pure tt
  pass_join exec_id (true, indices) = do consume_each exec_id indices; moves.proceed exec_id

  -- `GatewayExecutor`.
  unfoldable pub join : StepFields → String → Nav (Unit {0})
  join fields exec_id = do
    executions ← get_executions
    answer ← lift endless_search (check_gateway_join executions fields wf.steps)
    pass_join exec_id answer

  unfoldable pub execute_gateway : StepFields → String → Nav (Unit {0})
  execute_gateway fields exec_id =
      if ltb 1 (length fields.incoming) then join fields exec_id else moves.proceed exec_id

  -- Compensation in the scope of an execution.
  unfoldable pub compensate_scope : String → Option Execution → Nav (Unit {0})
  compensate_scope activity_ref none = pure tt
  compensate_scope activity_ref (some ex) =
      trigger_compensation env wf moves ex.parent_id activity_ref

  unfoldable pub compensate_from : StepFields → String → Nav (Unit {0})
  compensate_from fields exec_id = do
    executions ← get_executions
    compensate_scope (text_at "activity_ref" fields.properties) (find_execution exec_id executions)

  unfoldable pub start_for_escalation : String → Nav (Unit {0})
  start_for_escalation code =
      forget_error (try_start_event_sub_processes env wf moves EventKind.escalation code none)

module _ (env : Env) (wf : WorkflowDefinition) (moves : Moves) (publishing : Publishing) where
  abbrev escalation_code : StepFields → String
  escalation_code fields =
      if is_empty (text_at "escalation_code" fields.properties)
      then text_at "escalation_ref" fields.properties
      else text_at "escalation_code" fields.properties

  unfoldable pub escalate : String → Nav (Unit {0})
  escalate code = do publishing.publish_escalation code; start_for_escalation env wf moves code

  unfoldable pub cancel_from : String → Option Execution → Nav (Unit {0})
  cancel_from exec_id none = moves.proceed exec_id
  cancel_from exec_id (some ex) =
      if is_empty ex.parent_id
      then moves.proceed exec_id
      else cancel_transaction_scope env wf moves ex.parent_id

  unfoldable pub finish_end : StepFields → String → Nav (Unit {0})
  finish_end fields exec_id = do
    executions ← get_executions
    if definition_is "cancel" fields
        then cancel_from exec_id (find_execution exec_id executions)
        else moves.proceed exec_id

  unfoldable pub run_end : StepFields → String → Nav (Unit {0})
  run_end fields exec_id = do
    if has_text "signal_ref" fields
        then publishing.publish_signal (text_at "signal_ref" fields.properties)
        else pure tt
    if definition_is "compensate" fields
        then compensate_from env wf moves fields exec_id
        else pure tt
    if definition_is "terminate" fields
        then change_executions (map (cancelled_unless exec_id))
        else pure tt
    if definition_is "escalation" fields && not (is_empty (escalation_code fields))
        then escalate (escalation_code fields)
        else pure tt
    finish_end fields exec_id

  -- `PassthroughExecutor`, which is registered for end events alone.
  unfoldable pub execute_end : StepFields → String → Nav (Unit {0})
  execute_end fields exec_id =
      if has_text "error_ref" fields then fail (thrown_error fields) else run_end fields exec_id
