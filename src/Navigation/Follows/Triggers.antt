-- ===== src/Navigation/Follows/Triggers.antt =====
-- What events start inside their instance is a sequence of steps.
use flow_go.Prelude.{ℕ, String, ◌≡◌, Bool, true, false, List, [], ◌∷◌, Option, none, some, arith}
use flow_go.Model.Value.{Variables}
use flow_go.Model.Workflow.{
  StepDefinition, StepFields, Steps, Transition, Execution, is_active, find_step, step, no_steps,
  add_step,
}
use flow_go.Navigation.Exit.{Moves}
use flow_go.Navigation.Follows.Exit.{MovesFollow}
use flow_go.Navigation.Follows.Tokens.{
  basics, update_context-Follows, get_executions-Follows, new_execution-Follows,
  create_element-Follows, create_scoped-Follows,
}
use flow_go.Navigation.Steps.{Outside, Follows, pure-Follows, then-Follows, change-Follows}
use flow_go.Navigation.Triggers.{
  EventKind, first_start_step, interrupt_others, merge_payload, start_event_sub_process, try_start,
  try_start_each, try_start_event_sub_processes, run_handler, run_handlers, compensate_by,
  compensate_refs, compensate_each, trigger_compensation, terminated_outside,
}
use flow_go.Navigation.World.{WorkflowDefinition, Env}
use flow_go.Navigation.Follows.Boundary.{StaysCalm-map}

terminated_outside-calm :
    (id : String) (ex : Execution)
    → is_active (terminated_outside id ex).status ≡ true
    → is_active ex.status ≡ true
unfolding terminated_outside
terminated_outside-calm id ex h = ground arith

module _ (env : Env) (out : Outside) (wf : WorkflowDefinition) (moves : Moves)
    (back : MovesFollow env out moves) where
  open back use {advance_follows}

  interrupt_others-Follows :
      (interrupting : Bool) (id : String)
      → Follows env out (interrupt_others env wf moves interrupting id)
  unfolding interrupt_others
  interrupt_others-Follows true id =
      change-Follows env out _ (StaysCalm-map (terminated_outside id) (terminated_outside-calm id))
  interrupt_others-Follows false id = pure-Follows env out tt

  merge_payload-Follows :
      (payload : Option Variables) → Follows env out (merge_payload env wf moves payload)
  unfolding merge_payload
  merge_payload-Follows none = pure-Follows env out tt
  merge_payload-Follows (some payload) = update_context-Follows env out payload

  start_event-Follows :
      (id : String) (start : StepFields) (payload : Option Variables)
      → Follows env out (start_event_sub_process env wf moves id start payload)
  unfolding start_event_sub_process
  start_event-Follows id start payload =
      search
        (
          basics, interrupt_others-Follows, merge_payload-Follows, new_execution-Follows,
          create_scoped-Follows, advance_follows,
        )
        depth 12

  try_start-Follows :
      (kind : EventKind) (ref : String) (payload : Option Variables) (fields : StepFields)
      (start : Option StepFields)
      → Follows env out (try_start env wf moves kind ref payload fields start)
  unfolding try_start
  try_start-Follows kind ref payload fields none = pure-Follows env out tt
  try_start-Follows kind ref payload fields (some start) = search (basics, start_event-Follows)

  try_start_each-Follows :
      (kind : EventKind) (ref : String) (payload : Option Variables) (ss : Steps)
      → Follows env out (try_start_each env wf moves kind ref payload ss)
  unfolding try_start_each
  try_start_each-Follows kind ref payload no_steps = pure-Follows env out tt
  try_start_each-Follows kind ref payload (add_step (step fields subs) ss) =
      then-Follows env out _ _ (try_start-Follows kind ref payload fields (first_start_step subs))
        (try_start_each-Follows kind ref payload ss)

  pub try_start_event-Follows :
      (kind : EventKind) (ref : String) (payload : Option Variables)
      → Follows env out (try_start_event_sub_processes env wf moves kind ref payload)
  unfolding try_start_event_sub_processes
  try_start_event-Follows kind ref payload = try_start_each-Follows kind ref payload wf.steps

  run_handler-Follows :
      (scope_id : String) (scope_key : ℕ) (id : String)
      → Follows env out (run_handler env wf moves scope_id scope_key id)
  unfolding run_handler
  run_handler-Follows scope_id scope_key id =
      search (basics, new_execution-Follows, create_element-Follows, advance_follows) depth 10

  run_handlers-Follows :
      (scope_id : String) (scope_key : ℕ) (ts : List Transition)
      → Follows env out (run_handlers env wf moves scope_id scope_key ts)
  unfolding run_handlers
  run_handlers-Follows scope_id scope_key [] = pure-Follows env out tt
  run_handlers-Follows scope_id scope_key (t ∷ ts) =
      then-Follows env out _ _ (run_handler-Follows scope_id scope_key t.target_ref)
        (run_handlers-Follows scope_id scope_key ts)

  compensate_by-Follows :
      (scope_id : String) (scope_key : ℕ) (boundary : Option StepDefinition)
      → Follows env out (compensate_by env wf moves scope_id scope_key boundary)
  unfolding compensate_by
  compensate_by-Follows scope_id scope_key none = pure-Follows env out tt
  compensate_by-Follows scope_id scope_key (some boundary) = search (basics, run_handlers-Follows)

  compensate_refs-Follows :
      (scope_id : String) (scope_key : ℕ) (refs : List String)
      → Follows env out (compensate_refs env wf moves scope_id scope_key refs)
  unfolding compensate_refs
  compensate_refs-Follows scope_id scope_key [] = pure-Follows env out tt
  compensate_refs-Follows scope_id scope_key (ref ∷ refs) =
      then-Follows env out _ _ (compensate_by-Follows scope_id scope_key (find_step ref wf.steps))
        (compensate_refs-Follows scope_id scope_key refs)

  compensate_each-Follows :
      (scope_id : String) (scope_key : ℕ) (exs : List Execution)
      → Follows env out (compensate_each env wf moves scope_id scope_key exs)
  unfolding compensate_each
  compensate_each-Follows scope_id scope_key [] = pure-Follows env out tt
  compensate_each-Follows scope_id scope_key (ex ∷ exs) =
      then-Follows env out _ _ (compensate_refs-Follows scope_id scope_key _)
        (compensate_each-Follows scope_id scope_key exs)

  pub compensation-Follows :
      (scope_id activity : String)
      → Follows env out (trigger_compensation env wf moves scope_id activity)
  unfolding trigger_compensation
  compensation-Follows scope_id activity =
      search (basics, get_executions-Follows, compensate_each-Follows) depth 8
