-- ===== src/Navigation/Completion.antt =====
-- The end of a token's path in an instance that was not called (proceedToken of navigation.go).
use flow_go.Prelude.{
  ℕ, ◌+◌, String, ◌≡◌, refl, sym, ap, ◌∙◌, true, false, List, [], none, some, arith, nat_eq,
  string_eq,
}
use flow_go.Prelude.Text.{is_empty}
use flow_go.Model.Workflow.{
  StepDefinition, Execution, WorkflowInstance, find_step, is_completed_instance, fields_of,
}
use flow_go.Navigation.Exit.{Moves, wrap_error, end_of_path}
use flow_go.Navigation.Proceed.{leave_or_end, proceed_token}
use flow_go.Navigation.Tokens.{lift, get_executions, execution_at}
use flow_go.Navigation.Variables.{get_context, output_updates, apply_updates, apply_output_mappings}
use flow_go.Navigation.Places.{settled, Place, found-Place}
use flow_go.Navigation.Runs.{bind-done}
use flow_go.Navigation.World.{
  World, WorkflowDefinition, Env, execution_not_found, step_not_found, output_mapping, done, pure,
  ◌>>=◌, ◌>>◌, asks, index_of, find_execution,
}
use flow_go.Navigation.Ending.{active_left, settled_at, end_of_path-RunsTo, Settles}

-- The world after a navigation that ended the token `ex`.
pub record EndsToken (id : String) (ex : Execution) (before after : WorkflowInstance) : Type 0 where
  pub token_completed : find_execution id after.executions ≡ some (settled ex)
  pub waits_for_active : active_left after.executions ≡ true → after.status ≡ before.status
  pub completes : active_left after.executions ≡ false → is_completed_instance after.status ≡ true

Settles-EndsToken :
    (id : String) (ex : Execution) (exs : List Execution) (before after : WorkflowInstance)
    → find_execution id exs ≡ some (settled ex)
    → Settles before exs after
    → EndsToken id ex before after
Settles-EndsToken id ex exs before after found s = record {
  token_completed = ap (find_execution id) s.same_executions ∙ found;
  waits_for_active = λ h. s.goes_on (ap active_left (sym s.same_executions) ∙ h);
  completes = λ h. s.ends (ap active_left (sym s.same_executions) ∙ h);
}

zero_plus : (n : ℕ) → 0 + n ≡ n
zero_plus n = omega arith

module _ (env : Env) (wf : WorkflowDefinition) (moves : Moves) where
  leaves_at_end :
      (id : String) (ex : Execution) (s : StepDefinition) (w : World)
      (place : Place id 0 w.instance_.executions ex)
      → find_step ex.step_id wf.steps ≡ some s
      → (fields_of s).outgoing ≡ []
      → (fields_of s).output_parameters ≡ []
      → proceed_token env wf moves id w ≡ end_of_path env wf moves place.at (fields_of s).id id w
  unfolding proceed_token execution_at get_executions asks lift pure ◌>>=◌ ◌>>◌ wrap_error
      apply_output_mappings get_context output_updates apply_updates leave_or_end
  leaves_at_end id ex s w place known no_flows no_outputs =
      bind-done (lift (execution_not_found id) (index_of 0 id w.instance_.executions)) _ w w
        place.at (rw (place.index ∙ ap some (zero_plus place.at)) refl)
      ∙ bind-done (execution_at place.at) _ w w ex (rw place.here refl)
      ∙ bind-done (lift (step_not_found ex.step_id) (find_step ex.step_id wf.steps)) _ w w s
          (rw known refl)
      ∙ bind-done (wrap_error output_mapping (apply_output_mappings env (fields_of s) id)) _ w w tt
          (rw no_outputs refl)
      ∙ (rw (leave_or_end, no_flows) refl)

  -- A token that is no child of another, in an instance that no other called, and whose step has
  -- neither outgoing flows nor output mappings, ends: `proceedToken` succeeds, completes the token,
  -- and completes the instance exactly if no execution is left active.
  pub proceed_token-EndsToken :
      (id : String) (ex : Execution) (s : StepDefinition) (w : World)
      → find_execution id w.instance_.executions ≡ some ex
      → find_step ex.step_id wf.steps ≡ some s
      → (fields_of s).outgoing ≡ []
      → (fields_of s).output_parameters ≡ []
      → is_empty ex.parent_id ≡ true
      → w.instance_.parent_instance ≡ none
      → ((proceed_token env wf moves id w).0 ≡ done tt)
        × EndsToken id ex w.instance_ (proceed_token env wf moves id w).1.instance_
  proceed_token-EndsToken id ex s w found known no_flows no_outputs top alone =
      let place = found-Place id 0 w.instance_.executions ex found in
      let (ended, settles) =
        end_of_path-RunsTo env wf moves place.at id (fields_of s).id ex w place.here_settled
          place.found_settled top alone in
      rw (leaves_at_end id ex s w place known no_flows no_outputs) (
        ended,
        Settles-EndsToken id ex (settled_at place.at w) w.instance_ _ place.found_settled settles,
      )
