-- ===== src/Navigation/Tokens.antt =====
-- What the steps of navigation.go and step_executors.go do to tokens and element instances.
use flow_go.Prelude.{
  ℕ, String, Bool, not, ◌&&◌, List, Option, none, some, ◌==◌, nat_eq, string_eq, any, if◌then◌else◌,
}
use flow_go.Model.{ElementState, InstanceState, ElementInstance}
use flow_go.Model.Event.{process_instance_completed}
use flow_go.Model.Workflow.{
  StepFields, Execution, ExecutionStatus, is_active, is_completed_token, is_completed_instance,
  type_name,
}
use flow_go.Repository.Instances.{
  create_element_instance, update_element_instance, update_process_instance,
}
use flow_go.Navigation.World.{
  WorkflowDefinition, Env, Failure, execution_not_found, Nav, pure, fail, ◌>>=◌, ◌>>◌, asks, draw,
  store, emit, mark_completed, elem_at,
}
use flow_go.Navigation.Variables.{flow_scope_key}

-- A lookup that must succeed.
unfoldable pub lift : {A : Type 0} → Failure → Option A → Nav A
lift e none = fail e
lift e (some a) = pure a

unfoldable pub get_executions : Nav (List Execution)
get_executions = asks (λ w. w.instance_.executions)

-- `instance.Executions[i]`, for an index that a loop found.
unfoldable pub execution_at : ℕ → Nav Execution
execution_at i = do
  executions ← get_executions
  lift (execution_not_found "") (elem_at i executions)

-- Some token with this parent is not completed.
unfoldable pub waits_for_sibling : String → List Execution → Bool
waits_for_sibling parent_id =
    any (λ ex. ex.parent_id == parent_id && not (is_completed_token ex.status))

unfoldable pub type_or_task : Option StepFields → String
type_or_task none = "TASK"
type_or_task (some fields) = type_name fields.type

-- `UpdateElementInstance`.
unfoldable pub update_element : ElementState → ℕ → ℕ → Nav (Unit {0})
update_element state key end_time =
    store (λ db. record db { elements = update_element_instance key state end_time db.elements })

module _ (env : Env) where
  -- A new execution: its id, its start and its key are drawn.
  unfoldable pub new_execution : String → String → Nav Execution
  new_execution step_id parent_id = do
    id ← draw env.uuid
    start ← draw env.now
    key ← draw env.snowflake
    pure (record {
      id = id;
      step_id = step_id;
      status = ExecutionStatus.active;
      parent_id = parent_id;
      start_time = start;
      element_instance_key = key;
    })

  -- `UpdateElementInstance` with an end time, unless the execution has no element instance.
  unfoldable pub end_element : ElementState → ℕ → Nav (Unit {0})
  end_element state key =
      if key == 0 then pure tt else do end_time ← draw env.now; update_element state key end_time

module _ (env : Env) (wf : WorkflowDefinition) where
  abbrev new_element : Execution → String → String → ℕ → ℕ → ℕ → ElementInstance
  new_element ex id bpmn_element_type instance_key flow_scope created_at = record {
    key = ex.element_instance_key;
    id = id;
    process_instance_key = instance_key;
    process_definition_key = wf.id;
    element_id = ex.step_id;
    bpmn_element_type = bpmn_element_type;
    flow_scope_key = flow_scope;
    state = ElementState.activated;
    created_at = created_at;
    end_time = 0;
  }

  -- `CreateElementInstance` for a new execution.
  unfoldable pub create_element : Execution → String → String → ℕ → Nav (Unit {0})
  create_element ex id bpmn_element_type flow_scope = do
    instance_key ← asks (λ w. w.instance_.key)
    created_at ← draw env.now
    store (λ db. record db {
      elements =
          create_element_instance
            (new_element ex id bpmn_element_type instance_key flow_scope created_at) db.elements;
    })

  -- The same in the flow scope of the execution's parent.
  unfoldable pub create_scoped_element : Execution → String → String → Nav (Unit {0})
  create_scoped_element ex id bpmn_element_type = do
    flow_scope ← asks (λ w. flow_scope_key ex.parent_id w.instance_)
    create_element ex id bpmn_element_type flow_scope

  unfoldable pub complete_instance : Nav (Unit {0})
  complete_instance = do
    mark_completed
    key ← asks (λ w. w.instance_.key)
    end_time ← draw env.now
    store (λ db. record db {
      process_instances =
          update_process_instance key InstanceState.completed end_time db.process_instances;
    })
    emit (process_instance_completed key wf.id end_time)

  -- `completeInstanceIfNoActiveExecutions`.
  unfoldable pub complete_if_no_active : Nav (Unit {0})
  complete_if_no_active = do
    status ← asks (λ w. w.instance_.status)
    executions ← get_executions
    if is_completed_instance status
        then pure tt
        else if any (λ ex. is_active ex.status) executions
        then pure tt
        else complete_instance
