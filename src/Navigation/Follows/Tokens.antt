-- ===== src/Navigation/Follows/Tokens.antt =====
-- Variables, mappings, tokens and arrivals are sequences of steps.
use flow_go.Prelude.{ℕ, String, List, [], ◌∷◌, Option, none, some, nat_eq}
use flow_go.Model.{ElementState}
use flow_go.Model.Value.{Value, Variables}
use flow_go.Model.Workflow.{StepFields, Execution, WorkflowInstance}
use flow_go.Timers.Schedule.{TimerSchedule}
use flow_go.Navigation.World.{WorkflowDefinition, Env, Failure, Nav}
use flow_go.Navigation.Steps.{
  Outside, Follows, pure-Follows, fail-Follows, asks-Follows, draw-Follows, bind-Follows,
  then-Follows, if-Follows, store-Follows, aside-Follows, emit-Follows, append-Follows,
  set_context-Follows, mark_completed-Follows,
}
use flow_go.Navigation.Variables.{
  get_context, update_context, marshalled, persist_variable, persist_variables, apply_updates,
  apply_input_mappings, apply_output_mappings,
}
use flow_go.Navigation.Tokens.{
  lift, get_executions, execution_at, update_element, new_execution, end_element, create_element,
  create_scoped_element, complete_instance, complete_if_no_active,
}
use flow_go.Navigation.Arrival.{
  create_scheduled_timer, schedule_timer, subscribe, at_boundary, for_boundaries, arrive,
}

-- The rules of the monad and of its operations.
pub ruleset basics = (
  pure-Follows, fail-Follows, asks-Follows, draw-Follows, bind-Follows, then-Follows, if-Follows,
  aside-Follows, emit-Follows, append-Follows, set_context-Follows, mark_completed-Follows,
)

module _ (env : Env) (out : Outside) where
  pub get_context-Follows : Follows env out get_context
  unfolding get_context
  get_context-Follows = asks-Follows env out _

  pub update_context-Follows : (updates : Variables) → Follows env out (update_context updates)
  unfolding update_context
  update_context-Follows updates = search (basics, get_context-Follows)

  marshalled-Follows : (name : String) (o : Option String) → Follows env out (marshalled env name o)
  unfolding marshalled
  marshalled-Follows name none = fail-Follows env out _
  marshalled-Follows name (some json) = pure-Follows env out json

  persist_variable-Follows :
      (scope_key : ℕ) (v : String × Value) → Follows env out (persist_variable env scope_key v)
  unfolding persist_variable
  persist_variable-Follows scope_key v = search (basics, marshalled-Follows) depth 20

  pub persist_variables-Follows :
      (scope_key : ℕ) (vs : Variables) → Follows env out (persist_variables env scope_key vs)
  unfolding persist_variables
  persist_variables-Follows scope_key [] = pure-Follows env out tt
  persist_variables-Follows scope_key (v ∷ vs) =
      then-Follows env out _ _ (persist_variable-Follows scope_key v)
        (persist_variables-Follows scope_key vs)

  apply_updates-Follows :
      (scope : WorkflowInstance → ℕ) (vs : Variables) → Follows env out (apply_updates env scope vs)
  unfolding apply_updates
  apply_updates-Follows scope [] = pure-Follows env out tt
  apply_updates-Follows scope (v ∷ vs) =
      search (basics, update_context-Follows, persist_variables-Follows)

  pub input_mappings-Follows :
      (step : StepFields) (id : String) → Follows env out (apply_input_mappings env step id)
  unfolding apply_input_mappings
  input_mappings-Follows step id = search (basics, get_context-Follows, apply_updates-Follows)

  pub output_mappings-Follows :
      (step : StepFields) (id : String) → Follows env out (apply_output_mappings env step id)
  unfolding apply_output_mappings
  output_mappings-Follows step id = search (basics, get_context-Follows, apply_updates-Follows)

  pub lift-Follows : {A : Type 0} (e : Failure) (o : Option A) → Follows env out (lift e o)
  unfolding lift
  lift-Follows e none = fail-Follows env out e
  lift-Follows e (some a) = pure-Follows env out a

  pub get_executions-Follows : Follows env out get_executions
  unfolding get_executions
  get_executions-Follows = asks-Follows env out _

  pub execution_at-Follows : (i : ℕ) → Follows env out (execution_at i)
  unfolding execution_at
  execution_at-Follows i = search (basics, get_executions-Follows, lift-Follows)

  pub update_element-Follows :
      (state : ElementState) (key end_time : ℕ)
      → Follows env out (update_element state key end_time)
  unfolding update_element
  update_element-Follows state key end_time = search basics

  pub new_execution-Follows :
      (step_id parent_id : String) → Follows env out (new_execution env step_id parent_id)
  unfolding new_execution
  new_execution-Follows step_id parent_id = search basics depth 10

  pub end_element-Follows :
      (state : ElementState) (key : ℕ) → Follows env out (end_element env state key)
  unfolding end_element
  end_element-Follows state key = search (basics, update_element-Follows)

module _ (env : Env) (out : Outside) (wf : WorkflowDefinition) where
  pub create_element-Follows :
      (ex : Execution) (id type : String) (scope : ℕ)
      → Follows env out (create_element env wf ex id type scope)
  unfolding create_element
  create_element-Follows ex id type scope = search basics depth 10

  pub create_scoped-Follows :
      (ex : Execution) (id type : String)
      → Follows env out (create_scoped_element env wf ex id type)
  unfolding create_scoped_element
  create_scoped-Follows ex id type = search (basics, create_element-Follows)

  pub complete_instance-Follows : Follows env out (complete_instance env wf)
  unfolding complete_instance
  complete_instance-Follows = search basics depth 10

  pub complete_if_no_active-Follows : Follows env out (complete_if_no_active env wf)
  unfolding complete_if_no_active
  complete_if_no_active-Follows =
      search (basics, get_executions-Follows, complete_instance-Follows) depth 10

module _ (env : Env) (out : Outside) where
  scheduled-Follows :
      (id : String) (key : ℕ) (s : Option TimerSchedule)
      → Follows env out (create_scheduled_timer env id key s)
  unfolding create_scheduled_timer
  scheduled-Follows id key none = pure-Follows env out tt
  scheduled-Follows id key (some schedule) = search basics depth 12

  schedule_timer-Follows :
      (step : StepFields) (key : ℕ) → Follows env out (schedule_timer env step key)
  unfolding schedule_timer
  schedule_timer-Follows step key = search (basics, scheduled-Follows)

  subscribe-Follows : (step : StepFields) (key : ℕ) → Follows env out (subscribe env step key)
  unfolding subscribe
  subscribe-Follows step key = search (basics, get_context-Follows) depth 14

module _ (env : Env) (out : Outside) (wf : WorkflowDefinition) where
  at_boundary-Follows :
      (action : StepFields → Nav (Unit {0}))
      → ((step : StepFields) → Follows env out (action step))
      → (o : Option StepFields) → Follows env out (at_boundary env wf action o)
  unfolding at_boundary
  at_boundary-Follows action h none = pure-Follows env out tt
  at_boundary-Follows action h (some boundary) = search (basics, h)

  for_boundaries-Follows :
      (action : StepFields → Nav (Unit {0}))
      → ((step : StepFields) → Follows env out (action step))
      → (refs : List String) → Follows env out (for_boundaries env wf action refs)
  unfolding for_boundaries
  for_boundaries-Follows action h [] = pure-Follows env out tt
  for_boundaries-Follows action h (ref ∷ refs) =
      then-Follows env out _ _ (at_boundary-Follows action h _)
        (for_boundaries-Follows action h refs)

  pub arrive-Follows : (step : StepFields) (key : ℕ) → Follows env out (arrive env wf step key)
  unfolding arrive
  arrive-Follows step key =
      search (basics, for_boundaries-Follows, schedule_timer-Follows, subscribe-Follows) depth 10
