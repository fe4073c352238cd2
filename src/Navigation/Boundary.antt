-- ===== src/Navigation/Boundary.antt =====
-- Paths that leave a step at its boundary: handleBoundaryError of events.go, triggerBoundaryPath
-- and cancelTransactionScope of tier2_events.go.
use flow_go.Prelude.{
  ℕ, suc, String, Bool, true, false, ◌&&◌, ◌||◌, List, [], ◌∷◌, map, Option, none, some, ◌==◌,
  nat_eq, string_eq, if◌then◌else◌,
}
use flow_go.Prelude.Assoc.{lookup}
use flow_go.Prelude.Text.{is_empty}
use flow_go.Model.{ElementState, InstanceState}
use flow_go.Model.Value.{Value, text_at}
use flow_go.Model.Workflow.{
  StepDefinition, StepFields, Transition, Execution, ExecutionStatus, fields_of, find_step,
  find_top_step, is_active, is_completed_instance,
}
use flow_go.Repository.Instances.{update_process_instance}
use flow_go.Navigation.Arrival.{is_boundary_event}
use flow_go.Navigation.Exit.{Moves}
use flow_go.Navigation.Tokens.{
  lift, get_executions, execution_at, type_or_task, new_execution, end_element,
  create_scoped_element, complete_if_no_active,
}
use flow_go.Navigation.World.{
  WorkflowDefinition, Env, Failure, bpmn_error, step_not_found, Nav, pure, ◌>>=◌, ◌>>◌, asks, draw,
  store, change_executions, set_status, append_execution, index_of,
}

-- `v.(bool)` with a default.
abbrev pub bool_or : Bool → Option Value → Bool
bool_or default (some (Value.boolean b)) = b
bool_or default _ = default

abbrev pub is_there : Option Value → Bool
is_there none = false
is_there (some v) = true

-- An interrupting boundary event, which is the default.
abbrev pub cancels_activity : StepFields → Bool
cancels_activity boundary = bool_or true (lookup "cancel_activity" boundary.properties)

-- The first active execution at a step.
unfoldable pub active_at : ℕ → String → List Execution → Option ℕ
active_at i step_id [] = none
active_at i step_id (ex ∷ exs) =
    let rest = active_at (suc i) step_id exs in
    if ex.step_id == step_id && is_active ex.status then some i else rest

-- Whether an error is caught by this boundary event: only a BPMN error is, by its code or by none.
unfoldable pub catches : Failure → StepFields → Bool
catches (bpmn_error code message) boundary =
    is_boundary_event boundary.type
    && is_there (lookup "error_ref" boundary.properties)
    && (is_empty (text_at "error_code" boundary.properties)
        || text_at "error_code" boundary.properties == code)
catches _ boundary = false

abbrev caught_by : Failure → Option StepFields → Option StepFields → Option StepFields
caught_by e none rest = rest
caught_by e (some boundary) rest = if catches e boundary then some boundary else rest

abbrev pub fields_or_none : Option StepDefinition → Option StepFields
fields_or_none none = none
fields_or_none (some found) = some (fields_of found)

-- The active work of a transaction is cancelled.
unfoldable pub cancelled_in : String → String → Execution → Execution
cancelled_in scope_id step_id ex =
    if (ex.parent_id == scope_id || ex.parent_id == step_id) && is_active ex.status
    then record ex { status = ExecutionStatus.cancelled }
    else ex

module _ (env : Env) (wf : WorkflowDefinition) (moves : Moves) where
  -- The loop over the boundary events of a step.
  unfoldable pub first_catching : Failure → List String → Option StepFields
  first_catching e [] = none
  first_catching e (ref ∷ refs) = caught_by e (find_top_step ref wf.steps) (first_catching e refs)

  -- A token for the target of a flow, beside the execution that the event is attached to.
  unfoldable pub spawn_at : (String → Option StepFields) → String → String → Nav (Unit {0})
  spawn_at step_of parent_id target = do
    ex ← new_execution env target parent_id
    create_scoped_element env wf ex "" (type_or_task (step_of target))
    append_execution ex
    moves.advance ex.id

  unfoldable pub spawn_flows :
      (String → Option StepFields) → String → List Transition → Nav (Unit {0})
  spawn_flows step_of parent_id [] = pure tt
  spawn_flows step_of parent_id (t ∷ ts) = do
    spawn_at step_of parent_id t.target_ref
    spawn_flows step_of parent_id ts

  unfoldable pub terminate_at : ℕ → ℕ → Nav (Unit {0})
  terminate_at i key = do
    set_status i ExecutionStatus.terminated
    end_element env ElementState.terminated key

  -- The execution that the event is attached to ends if the event interrupts; its parent is the
  -- scope of the new tokens.
  unfoldable pub interrupt : Bool → Option ℕ → Nav String
  interrupt cancels none = pure ""
  interrupt cancels (some i) = do
    ex ← execution_at i
    if cancels then terminate_at i ex.element_instance_key else pure tt
    pure ex.parent_id

  unfoldable pub record_completion : Nav (Unit {0})
  record_completion = do
    key ← asks (λ w. w.instance_.key)
    end_time ← draw env.now
    store (λ db. record db {
      process_instances =
          update_process_instance key InstanceState.completed end_time db.process_instances;
    })

  unfoldable pub catch_at : StepFields → String → Nav (Unit {0})
  catch_at boundary exec_id = do
    executions ← get_executions
    parent_id ← interrupt (cancels_activity boundary) (index_of 0 exec_id executions)
    spawn_flows (λ id. find_top_step id wf.steps) parent_id boundary.outgoing
    status ← asks (λ w. w.instance_.status)
    if is_completed_instance status then record_completion else pure tt

  unfoldable pub caught : String → Option StepFields → Nav Bool
  caught exec_id none = pure false
  caught exec_id (some boundary) = do catch_at boundary exec_id; pure true

  -- `handleBoundaryError`: whether the error was caught.
  unfoldable pub handle_boundary_error : StepFields → String → Failure → Nav Bool
  handle_boundary_error step exec_id e = caught exec_id (first_catching e step.boundary_event_refs)

  unfoldable pub trigger_boundary_path : StepFields → String → Nav (Unit {0})
  trigger_boundary_path boundary attached = do
    executions ← get_executions
    parent_id ← interrupt (cancels_activity boundary) (active_at 0 attached executions)
    spawn_flows (λ id. fields_or_none (find_step id wf.steps)) parent_id boundary.outgoing

  unfoldable pub trigger_cancel : String → Option StepDefinition → Nav (Unit {0})
  trigger_cancel attached none = pure tt
  trigger_cancel attached (some boundary) =
      if text_at "event_definition_type" (fields_of boundary).properties == "cancel"
      then trigger_boundary_path (fields_of boundary) attached
      else pure tt

  unfoldable pub trigger_cancels : String → List String → Nav (Unit {0})
  trigger_cancels attached [] = pure tt
  trigger_cancels attached (ref ∷ refs) = do
    trigger_cancel attached (find_step ref wf.steps)
    trigger_cancels attached refs

  unfoldable pub terminate_scope : Option ℕ → Nav String
  terminate_scope none = pure ""
  terminate_scope (some i) = do
    ex ← execution_at i
    set_status i ExecutionStatus.terminated
    pure ex.step_id

  unfoldable pub cancel_transaction_scope : String → Nav (Unit {0})
  cancel_transaction_scope scope_id = do
    executions ← get_executions
    step_id ← terminate_scope (index_of 0 scope_id executions)
    step ← lift (step_not_found step_id) (find_step step_id wf.steps)
    change_executions (map (cancelled_in scope_id step_id))
    trigger_cancels step_id (fields_of step).boundary_event_refs
    complete_if_no_active env wf
