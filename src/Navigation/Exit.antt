-- ===== src/Navigation/Exit.antt =====
-- Leaving a step (proceedToken of navigation.go): ending a path, the end of a multi-instance child,
-- and the bubbling up of checkSubProcessCompletion of subprocess.go. A call of another function
-- that moves tokens goes through `Moves`, which Navigation/Engine closes.
use Prim.Native.String.{◌++◌}
use flow_go.Prelude.{
  ℕ, String, Bool, List, [], ◌∷◌, Option, none, some, ◌==◌, nat_eq, string_eq, if◌then◌else◌,
}
use flow_go.Prelude.Assoc.{lookup}
use flow_go.Prelude.Int.{ℤ, pos, negsuc, ◌-ℤ◌, ltb_ℤ}
use flow_go.Prelude.Text.{is_empty}
use flow_go.Model.{ElementState}
use flow_go.Model.Event.{element_instance_completed}
use flow_go.Model.Value.{Value, Variables, number_of, collection_of}
use flow_go.Model.Workflow.{StepFields, Execution, ExecutionStatus, is_active, type_name}
use flow_go.Navigation.Tokens.{
  lift, get_executions, execution_at, waits_for_sibling, new_execution, end_element, update_element,
  create_element, complete_if_no_active,
}
use flow_go.Navigation.Variables.{get_context, update_context, persist_variables}
use flow_go.Navigation.World.{
  World, WorkflowDefinition, Env, Failure, mi_parent_not_found, Nav, Outcome, done, failed, pure,
  ◌>>=◌, ◌>>◌, asks, draw, store, emit, elem_at, set_status, put_execution, append_execution,
  index_of, find_execution,
}
use flow_go.Timers.Table.{cancel_created_timers}

-- `proceedToken`, `autoAdvance`, and what other instances have to do with this one:
-- `notifyParentProcess`.
pub record Moves : Type 0 where
  pub proceed : String → Nav (Unit {0})
  pub advance : String → Nav (Unit {0})
  pub notify_parent : Nav (Unit {0})

-- An error with a text around it.
abbrev pub wrapped : {A : Type 0} → (Failure → Failure) → Outcome A × World → Outcome A × World
wrapped f (done a, w) = (done a, w)
wrapped f (failed e, w) = (failed (f e), w)

unfoldable pub wrap_error : {A : Type 0} → (Failure → Failure) → Nav A → Nav A
wrap_error f m w = wrapped f (m w)

abbrev pub is_parallel_loop : StepFields → Bool
is_parallel_loop step = step.loop_type == "PARALLEL"

abbrev pub is_sequential_loop : StepFields → Bool
is_sequential_loop step = step.loop_type == "SEQUENTIAL"

abbrev pub loop_index_name : String → String
loop_index_name id = "_loop_index_" ++ id

abbrev pub loop_total_name : String → String
loop_total_name id = "_loop_total_" ++ id

-- A loop counter of the context, or 0.
unfoldable pub counter_at : String → Variables → ℤ
counter_at name context = elim (lookup name context) [ none ↦ pos 0 | some v ↦ number_of v (pos 0) ]

-- `collection[i]` with a test that `i` is below the length; Go panics at a negative index.
unfoldable pub item_at : ℤ → List Value → Option Value
item_at (pos n) items = elem_at n items
item_at (negsuc n) items = none

-- The variable for an item, if it is there and the step names one.
abbrev pub has_name : Option Value → String → Option (String × Value)
has_name none name = none
has_name (some item) name = if is_empty name then none else some (name, item)

module _ (env : Env) (wf : WorkflowDefinition) (moves : Moves) where
  unfoldable pub notify_if_called : Option ℕ → Nav (Unit {0})
  notify_if_called none = pure tt
  notify_if_called (some parent) = moves.notify_parent

  unfoldable pub proceed_if_active : Option Execution → Nav (Unit {0})
  proceed_if_active none = pure tt
  proceed_if_active (some parent) =
      if is_active parent.status then moves.proceed parent.id else pure tt

  -- `checkSubProcessCompletion`, for an execution that was found.
  unfoldable pub proceed_sub_process : Option Execution → Nav (Unit {0})
  proceed_sub_process none = pure tt
  proceed_sub_process (some ex) = do
    executions ← get_executions
    if is_empty ex.parent_id
        then pure tt
        else if waits_for_sibling ex.parent_id executions
        then pure tt
        else proceed_if_active (find_execution ex.parent_id executions)

  unfoldable pub check_sub_process_completion : String → Nav (Unit {0})
  check_sub_process_completion exec_id = do
    executions ← get_executions
    proceed_sub_process (find_execution exec_id executions)

  -- The row of a completed element instance, and its event.
  unfoldable pub complete_element : String → ℕ → Nav (Unit {0})
  complete_element step_id key = if key == 0 then pure tt else do
    end_time ← draw env.now
    update_element ElementState.completed key end_time
    instance_key ← asks (λ w. w.instance_.key)
    emit (element_instance_completed key instance_key step_id end_time)

  -- A token at a step with no way out.
  unfoldable pub end_of_path : ℕ → String → String → Nav (Unit {0})
  end_of_path i step_id exec_id = do
    set_status i ExecutionStatus.completed
    ex ← execution_at i
    complete_element step_id ex.element_instance_key
    complete_if_no_active env wf
    check_sub_process_completion exec_id
    parent ← asks (λ w. w.instance_.parent_instance)
    notify_if_called parent

  -- An execution is completed with its element instance, without an event.
  unfoldable pub complete_execution_at : ℕ → Nav Execution
  complete_execution_at i = do
    set_status i ExecutionStatus.completed
    ex ← execution_at i
    end_element env ElementState.completed ex.element_instance_key
    pure ex

  -- The index of the scope of a multi-instance child.
  unfoldable pub scope_index : String → Nav ℕ
  scope_index parent_id = do
    executions ← get_executions
    lift (mi_parent_not_found parent_id) (index_of 0 parent_id executions)

  -- Leaving a parallel multi-instance step: the last child completes the scope, which goes on; the
  -- child's place is overwritten by the scope. `none` waits for the others.
  unfoldable pub merge_into_scope : ℕ → String → Nav (Option ℕ)
  merge_into_scope i parent_id = do
    p ← scope_index parent_id
    parent ← complete_execution_at p
    put_execution i (record parent { status = ExecutionStatus.completed })
    pure (some p)

  unfoldable pub exit_parallel : ℕ → Nav (Option ℕ)
  exit_parallel i = do
    ex ← complete_execution_at i
    executions ← get_executions
    if waits_for_sibling ex.parent_id executions then pure none else merge_into_scope i ex.parent_id

  -- The variable for the item of a child, in the scope of the child.
  unfoldable pub inject_item : ℕ → Option (String × Value) → Nav (Unit {0})
  inject_item key none = pure tt
  inject_item key (some v) = persist_variables env key (v ∷ [])

  -- The next child of a sequential multi-instance step.
  unfoldable pub next_iteration : StepFields → Execution → ℤ → Nav (Unit {0})
  next_iteration step parent index = do
    persist_variables env parent.element_instance_key
        ((loop_index_name parent.id, Value.int index) ∷ [])
    update_context ((loop_index_name parent.id, Value.int index) ∷ [])
    child ← new_execution env step.id parent.id
    context ← get_context
    inject_item child.element_instance_key (
        has_name (item_at index (collection_of (lookup step.loop_collection context)))
          step.loop_element)
    create_element env wf child "" (type_name step.type) parent.element_instance_key
    append_execution child
    moves.advance child.id

  unfoldable pub complete_scope : ℕ → Nav (Option ℕ)
  complete_scope p = do complete_execution_at p; pure (some p)

  unfoldable pub exit_sequential : StepFields → ℕ → Nav (Option ℕ)
  exit_sequential step i = do
    ex ← complete_execution_at i
    p ← scope_index ex.parent_id
    parent ← execution_at p
    context ← get_context
    let index = counter_at (loop_index_name ex.parent_id) context -ℤ negsuc 0
    if ltb_ℤ index (counter_at (loop_total_name ex.parent_id) context)
        then (next_iteration step parent index >> pure none)
        else complete_scope p

  unfoldable pub cancel_timers : ℕ → Nav (Unit {0})
  cancel_timers key = store (λ db. record db { timers = cancel_created_timers key db.timers })

  unfoldable pub exit_standard : ℕ → Nav (Option ℕ)
  exit_standard i = do
    ex ← complete_execution_at i
    cancel_timers ex.element_instance_key
    pure (some i)

  -- Leaving a step: the index of the execution whose scope the next tokens get.
  unfoldable pub exit_step : StepFields → ℕ → Nav (Option ℕ)
  exit_step step i =
      if is_parallel_loop step
      then exit_parallel i
      else if is_sequential_loop step
      then exit_sequential step i
      else exit_standard i
