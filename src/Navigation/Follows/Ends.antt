-- ===== src/Navigation/Follows/Ends.antt =====
-- The executors of end events and of throw events are sequences of steps.
use flow_go.Prelude.{ℕ, String, ◌≡◌, true, map, Option, none, some, arith}
use flow_go.Model.Workflow.{StepFields, Execution, is_active}
use flow_go.Navigation.Executors.{
  Publishing, cancelled_unless, escalate, cancel_from, finish_end, run_end, execute_end,
}
use flow_go.Navigation.Executors.Throw.{
  throw_message, jump, throw_link, throw_escalation, execute_throw,
}
use flow_go.Navigation.Exit.{Moves}
use flow_go.Navigation.Follows.Exit.{MovesFollow}
use flow_go.Navigation.Follows.Tokens.{
  basics, get_context-Follows, lift-Follows, get_executions-Follows,
}
use flow_go.Navigation.Follows.Boundary.{StaysCalm-map, cancel_scope-Follows}
use flow_go.Navigation.Steps.{Outside, Follows, then-Follows, change-Follows, StaysCalm-modify_at}
use flow_go.Navigation.World.{
  World, WorkflowDefinition, Env, Failure, Nav, Outcome, done, failed, bpmn_error,
  execution_not_found, step_not_found, mi_parent_not_found, marshal_failed, no_path, unknown_step,
  endless_search, out_of_fuel, output_mapping, input_mapping, other, modify_at,
}
use flow_go.Navigation.Follows.Executors.{
  compensate_from-Follows, start_escalation-Follows, also-Follows,
}

cancelled_unless-calm :
    (id : String) (ex : Execution)
    → is_active (cancelled_unless id ex).status ≡ true
    → is_active ex.status ≡ true
unfolding cancelled_unless
cancelled_unless-calm id ex h = ground arith

-- What reaches other instances is made of steps too.
pub record PublishingFollows (env : Env) (out : Outside) (publishing : Publishing) : Type 0 where
  pub signal_follows : (name : String) → Follows env out (publishing.publish_signal name)
  pub message_follows : (name key : String) → Follows env out (publishing.publish_message name key)
  pub escalation_follows : (code : String) → Follows env out (publishing.publish_escalation code)

module _ (env : Env) (out : Outside) (wf : WorkflowDefinition) (moves : Moves)
    (back : MovesFollow env out moves) (publishing : Publishing)
    (outside : PublishingFollows env out publishing) where
  open back use {proceed_follows, advance_follows}
  open outside use {signal_follows, message_follows, escalation_follows}

  escalate-Follows : (code : String) → Follows env out (escalate env wf moves publishing code)
  unfolding escalate
  escalate-Follows code =
      then-Follows env out _ _ (escalation_follows code)
        (start_escalation-Follows env out wf moves back code)

  cancel_from-Follows :
      (id : String) (ex : Option Execution)
      → Follows env out (cancel_from env wf moves publishing id ex)
  unfolding cancel_from
  cancel_from-Follows id none = proceed_follows id
  cancel_from-Follows id (some ex) =
      let cancelled = cancel_scope-Follows env out wf moves back in
      search (basics, proceed_follows, cancelled)

  finish_end-Follows :
      (fields : StepFields) (id : String)
      → Follows env out (finish_end env wf moves publishing fields id)
  unfolding finish_end
  finish_end-Follows fields id =
      search (basics, get_executions-Follows, cancel_from-Follows, proceed_follows) depth 8

  terminate_others-Follows :
      (id : String)
      → Follows env out (flow_go.Navigation.World.change_executions (map (cancelled_unless id)))
  terminate_others-Follows id =
      change-Follows env out _ (StaysCalm-map (cancelled_unless id) (cancelled_unless-calm id))

  run_end-Follows :
      (fields : StepFields) (id : String)
      → Follows env out (run_end env wf moves publishing fields id)
  unfolding run_end
  run_end-Follows fields id =
      let compensated = compensate_from-Follows env out wf moves back in
      search
        (
          basics, signal_follows, compensated, terminate_others-Follows, escalate-Follows,
          finish_end-Follows,
        )
        depth 14

  pub execute_end-Follows :
      (fields : StepFields) (id : String)
      → Follows env out (execute_end env wf moves publishing fields id)
  unfolding execute_end
  execute_end-Follows fields id = search (basics, run_end-Follows)

  throw_message-Follows :
      (fields : StepFields) → Follows env out (throw_message env wf moves publishing fields)
  unfolding throw_message
  throw_message-Follows fields = search (basics, get_context-Follows, message_follows)

  jump-Follows :
      (catch_id : String) (i : Option ℕ) (id : String)
      → Follows env out (jump env wf moves publishing catch_id i id)
  unfolding jump
  jump-Follows catch_id none id = proceed_follows id
  jump-Follows catch_id (some i) id =
      then-Follows env out _ _
        (change-Follows env out _
          (StaysCalm-modify_at i (λ ex. record ex { step_id = catch_id }) (λ ex h. h)))
        (proceed_follows id)

  throw_link-Follows :
      (fields : StepFields) (id : String)
      → Follows env out (throw_link env wf moves publishing fields id)
  unfolding throw_link
  throw_link-Follows fields id =
      search (basics, lift-Follows, get_executions-Follows, jump-Follows) depth 8

  throw_escalation-Follows :
      (code : String) → Follows env out (throw_escalation env wf moves publishing code)
  unfolding throw_escalation
  throw_escalation-Follows code =
      also-Follows env out _ _ (escalation_follows code)
        (start_escalation-Follows env out wf moves back code)

  pub execute_throw-Follows :
      (fields : StepFields) (id : String)
      → Follows env out (execute_throw env wf moves publishing fields id)
  unfolding execute_throw
  execute_throw-Follows fields id =
      let compensated = compensate_from-Follows env out wf moves back in
      search
        (
          basics, signal_follows, throw_message-Follows, compensated, throw_link-Follows,
          throw_escalation-Follows, proceed_follows,
        )
        depth 20
