-- ===== src/Examples/Navigations.antt =====
-- A process of one script task, and runs of its navigation.
use flow_go.Prelude.{
  ◌+◌, true, false, ◌≡◌, refl, [], ◌∷◌, ◌++◌, none, some, arith, nat_eq, string_eq, length,
}
use flow_go.Prelude.Int.{pos}
use flow_go.Model.Value.{Value}
use flow_go.Model.Workflow.{
  StepType, StepDefinition, StepFields, step, no_steps, add_step, Execution, ExecutionStatus,
  WorkflowInstance, WorkflowStatus,
}
use flow_go.Repository.{empty_db}
use flow_go.Repository.Incidents.{list_incidents}
use flow_go.Repository.Instances.{create_variable}
use flow_go.Gateway.{JsResult}
use flow_go.Navigation.Boundary.{first_catching}
use flow_go.Navigation.Completion.{EndsToken, proceed_token-EndsToken}
use flow_go.Navigation.Engine.{handle_error}
use flow_go.Navigation.Executors.{Publishing}
use flow_go.Navigation.Executors.Called.{
  execute_call, called_definition, start_child, after_start, reload_instance,
}
use flow_go.Navigation.Tokens.{lift, get_executions}
use flow_go.Navigation.Variables.{get_context}
use flow_go.Navigation.Executors.Work.{Services, ScriptResult, DecisionResult}
use flow_go.Navigation.Exit.{Moves}
use flow_go.Navigation.Follows.Calls.{Calls}
use flow_go.Navigation.Incidents.{raised, handle_error-unlisted}
use flow_go.Navigation.Proceed.{proceed_token}
use flow_go.Navigation.Scopes.{row_of, persist_variable-one_row}
use flow_go.Navigation.Variables.{persist_variable}
use flow_go.Navigation.World.{
  World, WorkflowDefinition, Env, Failure, Outcome, done, pure, fail, asks, find_execution, ◌>>◌,
  ◌>>=◌,
}
use flow_go.Examples.{id_of}
use flow_go.Examples.Gateways.{join}

abbrev script_step : StepFields
script_step = record join { id = "sum"; type = StepType.script_task; incoming = []; outgoing = [] }

abbrev sum_process : WorkflowDefinition
sum_process = record { id = 2; steps = add_step (step script_step no_steps) no_steps }

abbrev plain_env : Env
plain_env = record {
  uuid = id_of;
  snowflake = λ n. 100 + n;
  now = λ n. 10;
  javascript = λ context text. JsResult.js_null;
  marshal = λ v. some "json";
  deterministic_key = λ s. 1;
  show_value = λ v. "";
  show_number = λ n. "3";
  error_text = λ e. "failed";
  clock = record { parse_duration = λ s. none; parse_time = λ layout s. none };
}

abbrev token : Execution
token = record {
  id = "e";
  step_id = "sum";
  status = ExecutionStatus.active;
  parent_id = "";
  start_time = 1;
  element_instance_key = 4;
}

abbrev sum_world : World
sum_world = record {
  session = record { db = empty_db; events = [] };
  instance_ = record {
    key = 3;
    workflow_key = 2;
    status = WorkflowStatus.running;
    parent_instance = none;
    parent_execution_id = "";
    executions = token ∷ [];
    context = [];
  };
  draws = 0;
}

abbrev silent : Publishing
silent = record {
  publish_signal = λ name. pure tt;
  publish_message = λ name key. pure tt;
  publish_escalation = λ code. pure tt;
}

abbrev failing_scripts : Services
failing_scripts = record {
  handler = λ implementation. none;
  run_script = λ text context. ScriptResult.script_error false "bad";
  same_value = λ v v'. true;
  evaluate_decision = λ id context. DecisionResult.undecided "none";
  latest_definition = λ process. none;
  definition_with_version = λ process version. none;
  start_called = λ definition context parent element. pure WorkflowStatus.running;
  get_instance = λ key db. none;
}

abbrev still : Moves
still = record { proceed = λ id. pure tt; advance = λ id. pure tt; notify_parent = pure tt }

abbrev call_step : StepFields
call_step = record script_step {
  id = "call";
  type = StepType.call_activity;
  properties = ("called_element", Value.text "child") ∷ [];
}

abbrev calling_process : WorkflowDefinition
calling_process = record { id = 2; steps = add_step (step call_step no_steps) no_steps }

abbrev caller : Execution
caller = record token { step_id = "call" }

abbrev bystander : ExecutionStatus → Execution
bystander status = record token { id = "b"; status = status }

abbrev calling_instance : ExecutionStatus → WorkflowInstance
calling_instance status = record sum_world.instance_ { executions = caller ∷ bystander status ∷ [] }

-- Its bystander is cancelled in memory alone.
abbrev calling_world : World
calling_world = record sum_world { instance_ = calling_instance ExecutionStatus.cancelled }

-- The called process ends at once, and the tables still have the bystander as active.
abbrev instant_child : Services
instant_child = record failing_scripts {
  latest_definition = λ process. some 5;
  start_called = λ definition context parent element. pure WorkflowStatus.completed;
  get_instance = λ key db. some (calling_instance ExecutionStatus.active);
}

-- A token that was cancelled in memory comes back with the instance that is read after the call.
cancelled_token_returns :
    (execute_call instant_child call_step "e" calling_world).1.instance_
    ≡ calling_instance ExecutionStatus.active
unfolding flow_go.Model.Value.text_at execute_call called_definition start_child after_start
    reload_instance pure fail asks ◌>>=◌ lift get_executions get_context find_execution
cancelled_token_returns = refl

proceed_token-EndsToken_example :
    ((proceed_token plain_env sum_process still "e" sum_world).0 ≡ done tt)
    × EndsToken "e" token sum_world.instance_
        (proceed_token plain_env sum_process still "e" sum_world).1.instance_
unfolding flow_go.Model.Workflow.find_step flow_go.Navigation.World.find_execution
proceed_token-EndsToken_example =
    proceed_token-EndsToken plain_env sum_process still "e" token (step script_step no_steps)
      sum_world refl refl refl refl refl refl

handle_error-unlisted_example :
    ((handle_error plain_env sum_process silent failing_scripts
        (pure tt)
        still
        script_step
        token
        (Failure.other "bad")
        sum_world).0
      ≡ done tt)
    × ((handle_error plain_env sum_process silent failing_scripts
          (pure tt)
          still
          script_step
          token
          (Failure.other "bad")
          sum_world).1.session.db.incidents
        ≡ []
          ++ raised plain_env sum_process silent failing_scripts
              (pure tt)
              still
              0
              token
              (Failure.other "bad")
            ∷ [])
    × (list_incidents 3
          (pos 50)
          (handle_error plain_env sum_process silent failing_scripts
            (pure tt)
            still
            script_step
            token
            (Failure.other "bad")
            sum_world).1.session.db.incidents
        ≡ list_incidents 3 (pos 50) [])
unfolding first_catching
handle_error-unlisted_example =
    handle_error-unlisted plain_env sum_process silent failing_scripts (pure tt) still script_step
      token (Failure.other "bad") (pos 50) sum_world refl (λ h. omega arith) (λ n h. omega arith)

persist_variable-one_row_example :
    ((persist_variable plain_env 5 ("item", Value.int (pos 1)) sum_world).1.session.db.variables
      ≡ create_variable (row_of plain_env "item" "json" 0 sum_world) [])
    × (length
          ((persist_variable plain_env 5 ("item", Value.int (pos 1))
              >> persist_variable plain_env 6 ("item", Value.int (pos 2)))
            sum_world).1.session.db.variables
        ≡ length
            (persist_variable plain_env 5
              ("item", Value.int (pos 1))
              sum_world).1.session.db.variables)
persist_variable-one_row_example =
    persist_variable-one_row plain_env "item" "json" "json" (Value.int (pos 1)) (Value.int (pos 2))
      5 6 sum_world refl refl
