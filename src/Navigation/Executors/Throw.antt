-- ===== src/Navigation/Executors/Throw.antt =====
-- `IntermediateThrowEventExecutor` of step_executors.go.
use flow_go.Prelude.{ℕ, String, Bool, true, false, not, Option, none, some, if◌then◌else◌}
use flow_go.Prelude.Assoc.{lookup}
use flow_go.Prelude.Text.{is_empty, trim_space}
use flow_go.Model.Value.{Value, Variables, text_at}
use flow_go.Model.Workflow.{StepFields}
use flow_go.Navigation.Executors.{
  Publishing, definition_is, has_text, thrown_error, find_link_catch, compensate_from,
  start_for_escalation,
}
use flow_go.Navigation.Exit.{Moves}
use flow_go.Navigation.Tokens.{lift, get_executions}
use flow_go.Navigation.Variables.{get_context}
use flow_go.Navigation.World.{
  World, WorkflowDefinition, Env, Failure, other, Nav, Outcome, done, failed, fail, ◌>>=◌, ◌>>◌,
  modify_at, change_executions, index_of,
}

abbrev pub failed_after : Failure → Outcome (Unit {0}) × World → Outcome (Unit {0}) × World
failed_after e (done a, w) = (failed e, w)
failed_after e (failed x, w) = (failed x, w)

abbrev pub also_then : Outcome (Unit {0}) × World → Nav (Unit {0}) → Outcome (Unit {0}) × World
also_then (done a, w) k = k w
also_then (failed e, w) k = failed_after e (k w)

-- The second action runs even if the first fails, whose error is then returned.
unfoldable pub also : Nav (Unit {0}) → Nav (Unit {0}) → Nav (Unit {0})
also m k w = also_then (m w) k

abbrev is_not_blank : String → StepFields → Bool
is_not_blank name fields = not (is_empty (trim_space (text_at name fields.properties)))

abbrev is_present : Option Value → Bool
is_present (some (Value.text s)) = true
is_present _ = false

module _ (env : Env) (wf : WorkflowDefinition) (moves : Moves) (publishing : Publishing) where
  abbrev correlation_of : Option Value → String → Variables → String
  correlation_of (some (Value.text name)) default context = elim (lookup name context) [
    | some v ↦ env.show_value v
    | none ↦ name
  ]
  correlation_of _ default context = default

  unfoldable pub throw_message : StepFields → Nav (Unit {0})
  throw_message fields = do
    context ← get_context
    publishing.publish_message (text_at "message_ref" fields.properties)
        (correlation_of (lookup "correlation_key" fields.properties) "" context)

  -- The token jumps onto the catch of the same name, and goes on from there.
  unfoldable pub jump : String → Option ℕ → String → Nav (Unit {0})
  jump catch_id none exec_id = moves.proceed exec_id
  jump catch_id (some i) exec_id = do
    change_executions (modify_at i (λ ex. record ex { step_id = catch_id }))
    moves.proceed exec_id

  unfoldable pub throw_link : StepFields → String → Nav (Unit {0})
  throw_link fields exec_id = do
    catch ←
        lift (other "no link catch")
          (find_link_catch (trim_space (text_at "link_name" fields.properties)) wf.steps)
    executions ← get_executions
    jump catch.id (index_of 0 exec_id executions) exec_id

  unfoldable pub throw_escalation : String → Nav (Unit {0})
  throw_escalation code =
      also (publishing.publish_escalation code) (start_for_escalation env wf moves code)

  unfoldable pub execute_throw : StepFields → String → Nav (Unit {0})
  execute_throw fields exec_id =
      if has_text "signal_ref" fields
      then (publishing.publish_signal (text_at "signal_ref" fields.properties)
          >> moves.proceed exec_id)
      else if has_text "message_ref" fields
      then (throw_message fields >> moves.proceed exec_id)
      else if has_text "error_ref" fields
      then fail (thrown_error fields)
      else if definition_is "compensate" fields
      then (compensate_from env wf moves fields exec_id >> moves.proceed exec_id)
      else if is_not_blank "link_name" fields
      then throw_link fields exec_id
      else if is_not_blank "escalation_code" fields
      then (throw_escalation (text_at "escalation_code" fields.properties) >> moves.proceed exec_id)
      else if is_not_blank "escalation_ref" fields
      then (throw_escalation (text_at "escalation_ref" fields.properties) >> moves.proceed exec_id)
      else moves.proceed exec_id
