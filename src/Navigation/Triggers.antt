-- ===== src/Navigation/Triggers.antt =====
-- What an event starts inside its instance: the compensation handlers of a scope (compensation.go)
-- and event sub-processes (tryStartEventSubProcesses of tier2_events.go).
use flow_go.Prelude.{
  ℕ, String, Bool, true, false, not, ◌&&◌, ◌||◌, List, [], ◌∷◌, map, Option, none, some, ◌==◌,
  nat_eq, string_eq, filter, if◌then◌else◌,
}
use mathlib.Core.List.{reverse}
use flow_go.Prelude.Sorting.{order_by}
use flow_go.Prelude.Text.{is_empty}
use flow_go.Model.Value.{Variables, text_at}
use flow_go.Model.Workflow.{
  StepType, StepDefinition, StepFields, Steps, Transition, Execution, ExecutionStatus, fields_of,
  find_step, is_active, is_completed_token, type_name, step, no_steps, add_step,
}
use flow_go.Navigation.Arrival.{is_boundary_event}
use flow_go.Navigation.Boundary.{cancels_activity, fields_or_none}
use flow_go.Navigation.Exit.{Moves}
use flow_go.Navigation.Tokens.{
  get_executions, type_or_task, new_execution, create_element, create_scoped_element,
}
use flow_go.Navigation.Variables.{update_context}
use flow_go.Navigation.World.{
  WorkflowDefinition, Env, Nav, pure, ◌>>=◌, ◌>>◌, asks, change_executions, append_execution,
  find_execution,
}

-- The kinds of events that start an event sub-process.
pub data EventKind : Type 0 where
  message signal escalation error timer conditional : EventKind

abbrev first_text : String → String → String
first_text a b = if is_empty a then b else a

abbrev has_definition : String → StepFields → Bool
has_definition name start = text_at "event_definition_type" start.properties == name

-- `eventSubProcessStartMatches`.
unfoldable pub event_start_matches : StepFields → EventKind → String → Bool
event_start_matches start EventKind.message ref =
    has_definition "message" start
    && (is_empty ref || text_at "message_ref" start.properties == ref)
event_start_matches start EventKind.signal ref =
    has_definition "signal" start && (is_empty ref || text_at "signal_ref" start.properties == ref)
event_start_matches start EventKind.escalation ref =
    let code =
      first_text (text_at "escalation_code" start.properties)
        (text_at "escalation_ref" start.properties) in
    has_definition "escalation" start && (is_empty ref || code == ref || is_empty code)
event_start_matches start EventKind.error ref =
    has_definition "error" start || not (is_empty (text_at "error_code" start.properties))
event_start_matches start EventKind.timer ref = has_definition "timer" start
event_start_matches start EventKind.conditional ref = has_definition "conditional" start

abbrev is_start : StepType → Bool
is_start StepType.start = true
is_start _ = false

abbrev is_event_sub_process : StepType → Bool
is_event_sub_process StepType.event_sub_process = true
is_event_sub_process _ = false

abbrev pub is_waiting : ExecutionStatus → Bool
is_waiting ExecutionStatus.waiting = true
is_waiting _ = false

-- The first start event among the steps.
unfoldable pub first_start_step : Steps → Option StepFields
first_start_step no_steps = none
first_start_step (add_step (step fields subs) ss) =
    let rest = first_start_step ss in if is_start fields.type then some fields else rest

-- A token outside the event sub-process is terminated by an interrupting start.
unfoldable pub terminated_outside : String → Execution → Execution
terminated_outside sub_process_id ex =
    if (is_active ex.status || is_waiting ex.status) && not (ex.parent_id == sub_process_id)
    then record ex { status = ExecutionStatus.terminated }
    else ex

-- The completed activities of a scope that a compensation is about, the latest first.
unfoldable pub to_compensate : String → String → List Execution → List Execution
to_compensate scope_id activity_ref executions = reverse (
    order_by (λ ex. ex.start_time)
      (filter
        (λ ex.
          is_completed_token ex.status
          && ex.parent_id == scope_id
          && (is_empty activity_ref || ex.step_id == activity_ref))
        executions))

abbrev pub is_compensation : StepFields → Bool
is_compensation boundary =
    is_boundary_event boundary.type
    && text_at "event_definition_type" boundary.properties == "compensate"

module _ (env : Env) (wf : WorkflowDefinition) (moves : Moves) where
  unfoldable pub interrupt_others : Bool → String → Nav (Unit {0})
  interrupt_others interrupting sub_process_id =
      if interrupting then change_executions (map (terminated_outside sub_process_id)) else pure tt

  unfoldable pub merge_payload : Option Variables → Nav (Unit {0})
  merge_payload none = pure tt
  merge_payload (some payload) = update_context payload

  unfoldable pub start_event_sub_process : String → StepFields → Option Variables → Nav (Unit {0})
  start_event_sub_process sub_process_id start payload = do
    interrupt_others (cancels_activity start) sub_process_id
    merge_payload payload
    child ← new_execution env start.id sub_process_id
    create_scoped_element env wf child "" (type_name start.type)
    append_execution child
    moves.advance child.id

  unfoldable pub try_start :
      EventKind → String → Option Variables → StepFields → Option StepFields → Nav (Unit {0})
  try_start kind ref payload sub_process none = pure tt
  try_start kind ref payload sub_process (some start) =
      if is_event_sub_process sub_process.type && event_start_matches start kind ref
      then start_event_sub_process sub_process.id start payload
      else pure tt

  unfoldable pub try_start_each : EventKind → String → Option Variables → Steps → Nav (Unit {0})
  try_start_each kind ref payload no_steps = pure tt
  try_start_each kind ref payload (add_step (step fields subs) ss) = do
    try_start kind ref payload fields (first_start_step subs)
    try_start_each kind ref payload ss

  -- `tryStartEventSubProcesses`.
  unfoldable pub try_start_event_sub_processes :
      EventKind → String → Option Variables → Nav (Unit {0})
  try_start_event_sub_processes kind ref payload = try_start_each kind ref payload wf.steps

  unfoldable pub run_handler : String → ℕ → String → Nav (Unit {0})
  run_handler scope_id scope_key handler_id = do
    handler ← new_execution env handler_id scope_id
    create_element env wf handler "" (type_or_task (fields_or_none (find_step handler_id wf.steps)))
        scope_key
    append_execution handler
    moves.advance handler.id

  unfoldable pub run_handlers : String → ℕ → List Transition → Nav (Unit {0})
  run_handlers scope_id scope_key [] = pure tt
  run_handlers scope_id scope_key (t ∷ ts) = do
    run_handler scope_id scope_key t.target_ref
    run_handlers scope_id scope_key ts

  unfoldable pub compensate_by : String → ℕ → Option StepDefinition → Nav (Unit {0})
  compensate_by scope_id scope_key none = pure tt
  compensate_by scope_id scope_key (some boundary) =
      if is_compensation (fields_of boundary)
      then run_handlers scope_id scope_key (fields_of boundary).outgoing
      else pure tt

  unfoldable pub compensate_refs : String → ℕ → List String → Nav (Unit {0})
  compensate_refs scope_id scope_key [] = pure tt
  compensate_refs scope_id scope_key (ref ∷ refs) = do
    compensate_by scope_id scope_key (find_step ref wf.steps)
    compensate_refs scope_id scope_key refs

  abbrev refs_of : Option StepDefinition → List String
  refs_of none = []
  refs_of (some found) = (fields_of found).boundary_event_refs

  unfoldable pub compensate_each : String → ℕ → List Execution → Nav (Unit {0})
  compensate_each scope_id scope_key [] = pure tt
  compensate_each scope_id scope_key (ex ∷ exs) = do
    compensate_refs scope_id scope_key (refs_of (find_step ex.step_id wf.steps))
    compensate_each scope_id scope_key exs

  abbrev scope_key_of : String → ℕ → Option Execution → ℕ
  scope_key_of scope_id instance_key none = if is_empty scope_id then instance_key else 0
  scope_key_of scope_id instance_key (some ex) =
      if is_empty scope_id then instance_key else ex.element_instance_key

  -- `TriggerCompensation`.
  unfoldable pub trigger_compensation : String → String → Nav (Unit {0})
  trigger_compensation scope_id activity_ref = do
    instance_key ← asks (λ w. w.instance_.key)
    executions ← get_executions
    compensate_each scope_id
        (scope_key_of scope_id instance_key (find_execution scope_id executions))
        (to_compensate scope_id activity_ref executions)
