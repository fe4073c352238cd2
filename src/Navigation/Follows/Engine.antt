-- ===== src/Navigation/Follows/Engine.antt =====
-- The functions that call one another, on any fuel, are sequences of steps.
use flow_go.Prelude.{ℕ, zero, suc, String, Option, none, some}
use flow_go.Model.Workflow.{StepType, StepDefinition, StepFields, Steps, Execution, step}
use flow_go.Navigation.Engine.{
  recovered, recover, execute_type, execute, raise_incident, handle_error, run_step,
  advance_execution, auto_advance, moves_on,
}
use flow_go.Navigation.Executors.{Publishing}
use flow_go.Navigation.Executors.Work.{Services}
use flow_go.Navigation.Exit.{Moves}
use flow_go.Navigation.Triggers.{first_start_step}
use flow_go.Navigation.Follows.Executors.{
  execute_start-Follows, execute_catch-Follows, execute_sub_process-Follows,
  execute_gateway-Follows,
}
use flow_go.Model.Value.{Variables}
use flow_go.Navigation.Executors.Called.{reload_instance}
use flow_go.Navigation.Follows.Calls.{
  Calls, signalled, messaged, escalated, started, notified, execute_call-Follows,
  reload_instance-Follows,
}
use flow_go.Navigation.Follows.Ends.{PublishingFollows, execute_end-Follows, execute_throw-Follows}
use flow_go.Navigation.Follows.Exit.{MovesFollow, wrap_error-Follows}
use flow_go.Navigation.Follows.Proceed.{proceed_token-Follows}
use flow_go.Navigation.Follows.Tokens.{
  basics, input_mappings-Follows, lift-Follows, get_executions-Follows,
}
use flow_go.Navigation.Follows.Boundary.{handle_boundary-Follows}
use flow_go.Navigation.Follows.Tasks.{
  execute_user_task-Follows, execute_script-Follows, execute_rule-Follows,
}
use flow_go.Navigation.Follows.Work.{execute_service-Follows}
use flow_go.Navigation.Steps.{
  step-Follows, left, Outside, Reaches, Reaches-trans, Follows, pure-Follows, fail-Follows,
  bind-Follows, then-Follows, if-Follows,
}
use flow_go.Navigation.World.{
  World, WorkflowDefinition, Env, Failure, Nav, Outcome, done, failed, out_of_fuel,
}

module _ (env : Env) (out : Outside) where
  recovered-Follows :
      {A : Type 0} (handler : Failure → Nav A)
      → ((e : Failure) → Follows env out (handler e))
      → (w : World) (r : Outcome A × World) → Reaches env out w r.1
      → Reaches env out w (recovered handler r).1
  recovered-Follows handler h w (done a, v) p = p
  recovered-Follows handler h w (failed out_of_fuel, v) p = p
  recovered-Follows handler h w (failed e, v) p =
      Reaches-trans env out w v (handler e v).1 p ((h e).path v)

  recover-Follows :
      {A : Type 0} (m : Nav A) (handler : Failure → Nav A)
      → Follows env out m
      → ((e : Failure) → Follows env out (handler e))
      → Follows env out (recover m handler)
  unfolding recover
  recover-Follows m handler p h = record {
    path = λ w. recovered-Follows handler h w (m w) (p.path w);
  }

-- Every run of the code of other instances, of called processes and of the parent is a step, or
-- several.
pub record OutsideFollows (env : Env) (out : Outside) (publishing : Publishing)
    (services : Services) (notify : Nav (Unit {0})) : Type 0 where
  pub publishing_follows : PublishingFollows env out publishing
  pub start_follows :
      (definition : ℕ) (context : Variables) (parent element : ℕ)
      → Follows env out (services.start_called definition context parent element)
  pub reload_follows : Follows env out (reload_instance services)
  pub notify_follows : Follows env out notify

module _ (env : Env) (out : Outside) (wf : WorkflowDefinition) (publishing : Publishing)
    (services : Services) (notify : Nav (Unit {0}))
    (outside : OutsideFollows env out publishing services notify) where
  open outside use {publishing_follows, start_follows, reload_follows, notify_follows}

  execute_type-Follows :
      (moves : Moves)
      → MovesFollow env out moves
      → (t : StepType) (fields : StepFields) (subs : Steps) (id : String)
      → Follows env out (execute_type env wf publishing services notify moves t fields subs id)
  unfolding execute_type
  execute_type-Follows moves back StepType.user_task fields subs id =
      execute_user_task-Follows env out wf moves back services fields id
  execute_type-Follows moves back StepType.service_task fields subs id =
      execute_service-Follows env out wf moves back services fields id
  execute_type-Follows moves back StepType.send_task fields subs id =
      execute_service-Follows env out wf moves back services fields id
  execute_type-Follows moves back StepType.script_task fields subs id =
      execute_script-Follows env out wf moves back services fields id
  execute_type-Follows moves back StepType.business_rule_task fields subs id =
      execute_rule-Follows env out wf moves back services fields id
  execute_type-Follows moves back StepType.sub_process fields subs id =
      execute_sub_process-Follows env out wf moves back (first_start_step subs) id
  execute_type-Follows moves back StepType.call_activity fields subs id =
      execute_call-Follows env out services start_follows reload_follows fields id
  execute_type-Follows moves back StepType.intermediate_throw_event fields subs id =
      execute_throw-Follows env out wf moves back publishing publishing_follows fields id
  execute_type-Follows moves back StepType.intermediate_catch_event fields subs id =
      execute_catch-Follows env out wf moves back fields id
  execute_type-Follows moves back StepType.start fields subs id =
      execute_start-Follows env out wf moves back fields id
  execute_type-Follows moves back StepType.end fields subs id =
      execute_end-Follows env out wf moves back publishing publishing_follows fields id
  execute_type-Follows moves back StepType.gateway_exclusive fields subs id =
      execute_gateway-Follows env out wf moves back fields id
  execute_type-Follows moves back StepType.gateway_inclusive fields subs id =
      execute_gateway-Follows env out wf moves back fields id
  execute_type-Follows moves back StepType.gateway_parallel fields subs id =
      execute_gateway-Follows env out wf moves back fields id
  execute_type-Follows moves back StepType.gateway_event_based fields subs id =
      execute_gateway-Follows env out wf moves back fields id
  execute_type-Follows moves back _ fields subs id = pure-Follows env out tt

  raise_incident-Follows :
      (ex : Execution) (e : Failure)
      → Follows env out (raise_incident env wf publishing services notify ex e)
  unfolding raise_incident
  raise_incident-Follows ex e = search basics depth 10

  handle_error-Follows :
      (moves : Moves)
      → MovesFollow env out moves
      → (fields : StepFields) (ex : Execution) (e : Failure)
      → Follows env out (handle_error env wf publishing services notify moves fields ex e)
  unfolding handle_error
  handle_error-Follows moves back fields ex e =
      bind-Follows env out _ _ (handle_boundary-Follows env out wf moves back fields ex.id e)
        (λ handled.
          if-Follows env out handled _ _ (pure-Follows env out tt) (raise_incident-Follows ex e))

  run_step-Follows :
      (moves : Moves)
      → MovesFollow env out moves
      → (ex : Execution) (found : StepDefinition)
      → Follows env out (run_step env wf publishing services notify moves ex found)
  unfolding run_step execute
  run_step-Follows moves back ex (step fields subs) =
      if-Follows env out _ _ _
        (then-Follows env out _ _
          (wrap_error-Follows env out _ _ (input_mappings-Follows env out fields ex.id))
          (recover-Follows env out _ _
            (execute_type-Follows moves back fields.type fields subs ex.id)
            (handle_error-Follows moves back fields ex)))
        (pure-Follows env out tt)

  advance_execution-Follows :
      (moves : Moves)
      → MovesFollow env out moves
      → (ex : Option Execution)
      → Follows env out (advance_execution env wf publishing services notify moves ex)
  unfolding advance_execution
  advance_execution-Follows moves back none = pure-Follows env out tt
  advance_execution-Follows moves back (some ex) =
      bind-Follows env out _ _ (lift-Follows env out _ _) (run_step-Follows moves back ex)

  auto_advance-Follows :
      (moves : Moves)
      → MovesFollow env out moves
      → (id : String) → Follows env out (auto_advance env wf publishing services notify moves id)
  unfolding auto_advance
  auto_advance-Follows moves back id =
      bind-Follows env out _ _ (get_executions-Follows env out)
        (λ executions. advance_execution-Follows moves back _)

  pub moves_on-Follows :
      (fuel : ℕ) → MovesFollow env out (moves_on env wf publishing services notify fuel)
  unfolding moves_on
  moves_on-Follows zero = record {
    proceed_follows = λ id. fail-Follows env out out_of_fuel;
    advance_follows = λ id. fail-Follows env out out_of_fuel;
    notify_follows = notify_follows;
  }
  moves_on-Follows (suc fuel) = record {
    proceed_follows =
        proceed_token-Follows env out wf (moves_on env wf publishing services notify fuel)
          (moves_on-Follows fuel);
    advance_follows =
        auto_advance-Follows (moves_on env wf publishing services notify fuel)
          (moves_on-Follows fuel);
    notify_follows = notify_follows;
  }

-- With the runs of that code as steps of their own, nothing is asked of it.
pub Calls-OutsideFollows :
    (env : Env) (publishing : Publishing) (services : Services) (notify : Nav (Unit {0}))
    → OutsideFollows env (Calls publishing services notify) publishing services notify
Calls-OutsideFollows env publishing services notify = record {
  publishing_follows = record {
    signal_follows = λ name. step-Follows env _ _ (λ w. left w _ (signalled name w));
    message_follows = λ name key. step-Follows env _ _ (λ w. left w _ (messaged name key w));
    escalation_follows = λ code. step-Follows env _ _ (λ w. left w _ (escalated code w));
  };
  start_follows = λ definition context parent element.
      step-Follows env _ _ (λ w. left w _ (started definition context parent element w));
  reload_follows = reload_instance-Follows env publishing services notify;
  notify_follows = step-Follows env _ _ (λ w. left w _ (notified w));
}
