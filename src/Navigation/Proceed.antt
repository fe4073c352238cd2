-- ===== src/Navigation/Proceed.antt =====
-- `proceedToken` of navigation.go.
use flow_go.Prelude.{ℕ, String, List, [], ◌∷◌, Option, none, some, nat_eq, string_eq}
use flow_go.Model.Workflow.{StepFields, fields_of, find_step}
use flow_go.Gateway.{determine_next_step_ids}
use flow_go.Navigation.Tokens.{lift, get_executions, execution_at, complete_if_no_active}
use flow_go.Navigation.Variables.{get_context, apply_output_mappings}
use flow_go.Navigation.World.{
  WorkflowDefinition, Env, execution_not_found, step_not_found, no_path, output_mapping, Nav, pure,
  ◌>>=◌, ◌>>◌, index_of,
}
use flow_go.Navigation.Exit.{Moves, wrap_error, end_of_path, exit_step}
use flow_go.Navigation.Enter.{enter_targets}

module _ (env : Env) (wf : WorkflowDefinition) (moves : Moves) where
  unfoldable pub enter_from : List String → Option ℕ → Nav (Unit {0})
  enter_from targets none = pure tt
  enter_from targets (some p) = do
    enter_targets env wf moves p targets
    complete_if_no_active env wf

  unfoldable pub leave_step : StepFields → ℕ → Nav (Unit {0})
  leave_step step i = do
    context ← get_context
    targets ← lift no_path (determine_next_step_ids (env.javascript context) step)
    p ← exit_step env wf moves step i
    enter_from targets p

  unfoldable pub leave_or_end : StepFields → ℕ → String → Nav (Unit {0})
  leave_or_end step i exec_id = elim step.outgoing [
    | [] ↦ end_of_path env wf moves i step.id exec_id
    | t ∷ ts ↦ leave_step step i
  ]

  -- `proceedToken`.
  unfoldable pub proceed_token : String → Nav (Unit {0})
  proceed_token exec_id = do
    executions ← get_executions
    i ← lift (execution_not_found exec_id) (index_of 0 exec_id executions)
    ex ← execution_at i
    step ← lift (step_not_found ex.step_id) (find_step ex.step_id wf.steps)
    wrap_error output_mapping (apply_output_mappings env (fields_of step) exec_id)
    leave_or_end (fields_of step) i exec_id
