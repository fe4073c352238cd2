-- ===== src/Navigation/Enter.antt =====
-- Entering the next steps (proceedToken of navigation.go): a token for each target, or the scope
-- and the children of a multi-instance step.
use Prim.Native.String.{◌++◌}
use flow_go.Prelude.{
  ℕ, String, ◌||◌, List, [], ◌∷◌, Option, none, some, nat_eq, string_eq, length, if◌then◌else◌,
}
use flow_go.Prelude.Assoc.{lookup}
use flow_go.Prelude.Int.{pos}
use flow_go.Model.Value.{Value, Variables, collection_of}
use flow_go.Model.Workflow.{
  StepDefinition, StepFields, Execution, fields_of, find_step, find_top_step, type_name,
}
use flow_go.Navigation.Arrival.{arrive}
use flow_go.Navigation.Tokens.{
  execution_at, type_or_task, new_execution, create_element, create_scoped_element,
}
use flow_go.Navigation.Variables.{get_context, update_context, persist_variables}
use flow_go.Navigation.World.{
  WorkflowDefinition, Env, Nav, pure, ◌>>=◌, ◌>>◌, draw, elem_at, append_execution,
}
use flow_go.Navigation.Exit.{
  Moves, is_parallel_loop, is_sequential_loop, loop_index_name, loop_total_name, has_name,
  inject_item,
}

module _ (env : Env) (wf : WorkflowDefinition) (moves : Moves) where
  -- A child of a parallel multi-instance step.
  unfoldable pub spawn_child : StepFields → Execution → Value → Nav (Unit {0})
  spawn_child step scope item = do
    child ← new_execution env step.id scope.id
    id ← draw env.uuid
    create_element env wf child id (type_name step.type) scope.element_instance_key
    inject_item env wf moves child.element_instance_key (has_name (some item) step.loop_element)
    append_execution child
    moves.advance child.id

  unfoldable pub spawn_children : StepFields → Execution → List Value → Nav (Unit {0})
  spawn_children step scope [] = pure tt
  spawn_children step scope (item ∷ items) = do
    spawn_child step scope item
    spawn_children step scope items

  -- The first child of a sequential multi-instance step, and its counters.
  unfoldable pub spawn_first : StepFields → Execution → List Value → Nav (Unit {0})
  spawn_first step scope items = do
    let counters =
        (loop_index_name scope.id, Value.int (pos 0))
        ∷ (loop_total_name scope.id, Value.int (pos (length items)))
        ∷ []
    persist_variables env scope.element_instance_key counters
    update_context counters
    child ← new_execution env step.id scope.id
    inject_item env wf moves child.element_instance_key
        (has_name (elem_at 0 items) step.loop_element)
    id ← draw env.uuid
    create_element env wf child id (type_name step.type) scope.element_instance_key
    append_execution child
    moves.advance child.id

  -- Entering a multi-instance step: a scope, and its children.
  unfoldable pub enter_loop : StepFields → String → List Value → Nav (Unit {0})
  enter_loop step parent_id items = do
    scope ← new_execution env step.id parent_id
    id ← draw env.uuid
    create_scoped_element env wf scope id (type_name step.type ++ "_MI_SCOPE")
    append_execution scope
    if is_parallel_loop step then spawn_children step scope items else spawn_first step scope items

  unfoldable pub arrive_at : Option StepDefinition → ℕ → Nav (Unit {0})
  arrive_at none key = pure tt
  arrive_at (some target) key = arrive env wf (fields_of target) key

  -- One token for the target.
  unfoldable pub enter_single : String → String → Nav (Unit {0})
  enter_single target parent_id = do
    ex ← new_execution env target parent_id
    id ← draw env.uuid
    create_scoped_element env wf ex id (type_or_task (find_top_step target wf.steps))
    arrive_at (find_step target wf.steps) ex.element_instance_key
    append_execution ex
    moves.advance ex.id

  abbrev items_to_loop : StepFields → Variables → List Value
  items_to_loop step context =
      if is_parallel_loop step || is_sequential_loop step
      then collection_of (lookup step.loop_collection context)
      else []

  -- A step that loops over no items is entered once.
  unfoldable pub enter_step : Option StepDefinition → String → String → Nav (Unit {0})
  enter_step none target parent_id = enter_single target parent_id
  enter_step (some found) target parent_id = do
    context ← get_context
    elim (items_to_loop (fields_of found) context) [
      | [] ↦ enter_single target parent_id
      | item ∷ items ↦ enter_loop (fields_of found) parent_id (item ∷ items)
    ]

  unfoldable pub enter_targets : ℕ → List String → Nav (Unit {0})
  enter_targets p [] = pure tt
  enter_targets p (target ∷ targets) = do
    ex ← execution_at p
    enter_step (find_step target wf.steps) target ex.parent_id
    enter_targets p targets
