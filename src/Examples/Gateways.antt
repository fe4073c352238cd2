-- ===== src/Examples/Gateways.antt =====
-- Runs of the gateways: a fork, two tasks, and a join.
use flow_go.Prelude.{
  ℕ, ◌≤◌, String, ◌≡◌, ◌↔◌, ◌⊎◌, refl, Bool, true, false, List, [], ◌∷◌, none, some, All, length,
}
use flow_go.Prelude.Assoc.{insert}
use flow_go.Model.Workflow.{
  StepType, Transition, StepFields, step, Steps, no_steps, add_step, Execution, ExecutionStatus,
}
use flow_go.Gateway.{JsResult, js_value, at_gateway, check_gateway_join, determine_next_step_ids}
use flow_go.Gateway.Join.{CannotArrive, inclusive_join_iff}
use flow_go.Gateway.Next.{
  Chosen, is_inclusive, open_targets, fallback, determine_next_step_ids_ok,
  determine_next_step_ids-none,
}
use flow_go.Gateway.Reach.{index_steps, can_reach}
use flow_go.Gateway.Reach.Path.{Reaches}
use flow_go.Gateway.Reach.Correct.{can_reach_correct}

abbrev pub flow_to : String → String → String → Transition
flow_to id target condition = record { id = id; target_ref = target; condition = condition }

abbrev pub join : StepFields
join = record {
  id = "join";
  type = StepType.gateway_inclusive;
  incoming = "a" ∷ "b" ∷ [];
  outgoing = flow_to "f5" "end" "" ∷ [];
  implementation = "";
  boundary_event_refs = [];
  default_flow = "";
  properties = [];
  loop_type = "";
  loop_collection = "";
  loop_element = "";
  task_listeners = [];
  input_parameters = [];
  output_parameters = [];
}

abbrev task_step : String → String → StepFields
task_step id flow = record join {
  id = id;
  type = StepType.service_task;
  incoming = "fork" ∷ [];
  outgoing = flow_to flow "join" "" ∷ [];
}

abbrev fork : StepFields
fork = record join {
  id = "fork";
  incoming = [];
  outgoing = flow_to "f1" "a" "x > 1" ∷ flow_to "f2" "b" "" ∷ flow_to "f0" "end" "" ∷ [];
  default_flow = "f0";
}

abbrev all_steps : Steps
all_steps = add_step (step fork no_steps) (
    add_step (step (task_step "a" "f3") no_steps)
      (add_step (step (task_step "b" "f4") no_steps) (add_step (step join no_steps) no_steps)))

abbrev token : String → Execution
token id = record {
  id = id;
  step_id = id;
  status = ExecutionStatus.active;
  parent_id = "";
  start_time = 0;
  element_instance_key = 0;
}

can_reach_correct_example :
    (b : Bool) × (can_reach "fork" "join" all_steps ≡ some b)
    × ((b ≡ true) ↔ Reaches (index_steps all_steps []) "fork" "join")
can_reach_correct_example = can_reach_correct "fork" "join" all_steps

can_reach_runs :
    (can_reach "fork" "join" all_steps ≡ some true) × (can_reach "join" "a" all_steps ≡ some false)
unfolding can_reach insert
can_reach_runs = (refl, refl)

inclusive_join_iff_example :
    (ready : Bool) × (consumed : List ℕ) × (check_gateway_join
        (token "join" ∷ token "a" ∷ [])
        join
        all_steps
      ≡ some (ready, consumed))
    × ((ready ≡ true) ↔ (
        (length join.incoming ≤ length (at_gateway "join" 0 (token "join" ∷ token "a" ∷ [])))
        ⊎ All (CannotArrive all_steps "join") (token "join" ∷ token "a" ∷ [])))
    × (ready ≡ true → consumed ≡ at_gateway "join" 0 (token "join" ∷ token "a" ∷ []))
inclusive_join_iff_example = inclusive_join_iff (token "join" ∷ token "a" ∷ []) join all_steps refl

join_waits : check_gateway_join (token "join" ∷ token "a" ∷ []) join all_steps ≡ some (false, [])
unfolding check_gateway_join insert
join_waits = refl

abbrev true_script : String → JsResult
true_script text = js_value true

fork_runs : determine_next_step_ids true_script fork ≡ some ("a" ∷ "b" ∷ [])
unfolding determine_next_step_ids
fork_runs = refl

determine_next_step_ids_ok_example :
    Chosen
      (is_inclusive fork.type)
      (open_targets true_script fork)
      (fallback true_script fork)
      ("a" ∷ "b" ∷ [])
determine_next_step_ids_ok_example =
    determine_next_step_ids_ok true_script fork ("a" ∷ "b" ∷ []) refl fork_runs

determine_next_step_ids-none_example :
    (determine_next_step_ids true_script fork ≡ none)
    ↔ ((open_targets true_script fork ≡ []) × (fallback true_script fork ≡ []))
determine_next_step_ids-none_example = determine_next_step_ids-none true_script fork refl
