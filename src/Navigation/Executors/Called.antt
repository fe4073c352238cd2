-- ===== src/Navigation/Executors/Called.antt =====
-- CallActivityExecutor of step_executors.go, and calledElementVersion. Looking up a definition
-- (getWorkflowDefinitionByBpmnProcessID and its variant with a version), starting the called process
-- (createAndStartInstance) and reading an instance back (GetInstance) are parameters, of which
-- nothing is assumed.
use flow_go.Prelude.{ℕ, String, ◌||◌, Option, none, some, nat_eq, ltb, if◌then◌else◌}
use flow_go.Prelude.Assoc.{lookup}
use flow_go.Prelude.Int.{ℤ, pos, negsuc, ltb_ℤ}
use flow_go.Prelude.Text.{is_empty, trim_space}
use flow_go.Model.Value.{Value, Variables, nil, boolean, int, float, text, list, object, text_at}
use flow_go.Model.Workflow.{
  StepFields, Execution, WorkflowInstance, WorkflowStatus, is_completed_instance,
}
use flow_go.Navigation.Executors.Work.{Services}
use flow_go.Navigation.Tokens.{lift, get_executions}
use flow_go.Navigation.Variables.{get_context}
use flow_go.Navigation.World.{
  execution_not_found, other, Nav, done, failed, pure, fail, ◌>>=◌, asks, find_execution,
}
use flow_go.Timers.Schedule.{atoi}

abbrev only_positive : Option ℤ → Option ℤ
only_positive none = none
only_positive (some n) = if ltb_ℤ (pos 0) n then some n else none

-- `v > 0` and `int(v)` on a float64.
abbrev float_version : ℤ → ℕ → Option ℤ
float_version (negsuc n) rest = none
float_version (pos n) rest = if ltb 0 n || ltb 0 rest then some (pos n) else none

abbrev version_of : Option Value → Option ℤ
version_of none = none
version_of (some nil) = none
version_of (some (boolean b)) = none
version_of (some (int n)) = only_positive (some n)
version_of (some (float whole rest)) = float_version whole rest
version_of (some (text s)) =
    if is_empty (trim_space s) then none else only_positive (atoi (trim_space s))
version_of (some (list vs)) = none
version_of (some (object fs)) = none

unfoldable pub called_element_version : Variables → Option ℤ
unfolding lookup atoi trim_space
called_element_version properties = version_of (lookup "called_element_version" properties)

-- `*instance = *updatedInstance`.
abbrev pub replaced_by : Option WorkflowInstance → Nav (Unit {0})
replaced_by none w = (failed (other "failed to reload parent instance after child completion"), w)
replaced_by (some updated) w = (done tt, record w { instance_ = updated })

module _ (services : Services) where
  abbrev definition_of_version : String → Option ℤ → Option ℕ
  definition_of_version called (some version) = services.definition_with_version called version
  definition_of_version called none = services.latest_definition called

  -- A specific version when configured, otherwise the latest.
  unfoldable pub called_definition : StepFields → Option ℕ
  unfolding called_element_version
  called_definition fields =
      definition_of_version (text_at "called_element" fields.properties)
        (called_element_version fields.properties)

  -- The instance as the tables have it takes the place of the one in memory.
  unfoldable pub reload_instance : Nav (Unit {0})
  reload_instance w = replaced_by (services.get_instance w.instance_.key w.session.db) w

  unfoldable pub after_start : WorkflowStatus → Nav (Unit {0})
  after_start status = if is_completed_instance status then reload_instance else pure tt

  unfoldable pub start_child : Execution → ℕ → Nav (Unit {0})
  start_child ex definition = do
    context ← get_context
    instance_key ← asks (λ w. w.instance_.key)
    status ← services.start_called definition context instance_key ex.element_instance_key
    after_start status

  -- `CallActivityExecutor`.
  unfoldable pub execute_call : StepFields → String → Nav (Unit {0})
  execute_call fields exec_id = do
    executions ← get_executions
    ex ← lift (execution_not_found exec_id) (find_execution exec_id executions)
    if is_empty (text_at "called_element" fields.properties)
        then fail (other "missing called_element")
        else (do
          definition ← lift (other "workflow definition not found") (called_definition fields)
          start_child ex definition)
