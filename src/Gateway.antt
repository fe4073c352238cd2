-- ===== src/Gateway.antt =====
-- The gateways of backend/services/workflow-command/internal/application/gateway_logic.go:
-- checkGatewayJoin, determineNextStepIDs, evaluateCondition, rewriteSingleEqualsComparison.
-- Evaluating JavaScript is a parameter.
pub mod Reach
pub mod Join
pub mod Next
pub mod Conditions
use flow_go.Prelude.{
  ℕ, zero, suc, ◌≤◌, String, Bool, true, false, not, ◌&&◌, ◌||◌, List, [], ◌∷◌, ◌++◌, map, Option,
  none, some, leb, ◌==◌, string_eq, length, if◌then◌else◌,
}
use flow_go.Prelude.Text.{is_empty, trim_space}
use flow_go.Model.Workflow.{
  StepType, Transition, StepFields, Steps, Execution, ExecutionStatus, is_active,
}
use Reach.{can_reach}
use Conditions.{normalize_condition}

-- The active executions at a step, by their index.
unfoldable pub at_gateway : String → ℕ → List Execution → List ℕ
at_gateway id i [] = []
at_gateway id i (ex ∷ exs) =
    let rest = at_gateway id (suc i) exs in
    if is_active ex.status && ex.step_id == id then i ∷ rest else rest

or_later : Option Bool → Option Bool → Option Bool
or_later none later = none
or_later (some true) later = some true
or_later (some false) later = later

-- The loop that looks for another token which can still arrive; `none` is a search without an end.
unfoldable pub can_others_reach : Steps → String → List Execution → Option Bool
unfolding can_reach or_later
can_others_reach steps id [] = some false
can_others_reach steps id (ex ∷ exs) =
    let rest = can_others_reach steps id exs in
    if is_active ex.status && not (ex.step_id == id)
    then or_later (can_reach ex.step_id id steps) rest
    else rest

join_unless : List ℕ → Option Bool → Option (Bool × List ℕ)
join_unless indices none = none
join_unless indices (some true) = some (false, [])
join_unless indices (some false) = some (true, indices)

-- Whether the gateway may proceed, and the indices of the executions that it consumes.
unfoldable pub check_gateway_join : List Execution → StepFields → Steps → Option (Bool × List ℕ)
unfolding at_gateway can_others_reach join_unless
check_gateway_join executions step steps = elim step.type [
  | StepType.gateway_parallel ↦
      let indices = at_gateway step.id 0 executions in
      if leb (length step.incoming) (length indices) then some (true, indices) else some (false, [])
  | StepType.gateway_inclusive ↦
      let indices = at_gateway step.id 0 executions in
      if leb (length step.incoming) (length indices)
      then some (true, indices)
      else join_unless indices (can_others_reach steps step.id executions)
  | _ ↦ some (true, [])
]

-- What evaluating a JavaScript expression answers; a value counts by its truth.
pub data JsResult : Type 0 where
  js_error js_null : JsResult
  js_value : Bool → JsResult

js_truth : JsResult → Bool
js_truth js_error = false
js_truth js_null = false
js_truth (js_value b) = b

module _ (javascript : String → JsResult) where
  unfoldable pub evaluate_condition : String → Bool
  unfolding normalize_condition js_truth
  evaluate_condition condition =
      let normal = normalize_condition condition in
      if is_empty condition
      then true
      else if normal == "true"
      then true
      else if normal == "false"
      then false
      else js_truth (javascript normal)

  unfoldable pub is_default : StepFields → Transition → Bool
  is_default step t = not (is_empty step.default_flow) && step.default_flow == t.id

  unfoldable pub holds : Transition → Bool
  unfolding evaluate_condition
  holds t = is_empty t.condition || evaluate_condition t.condition

  -- The target of the default flow, if the step has one.
  unfoldable pub default_target : String → List Transition → List String
  default_target default_flow [] = []
  default_target default_flow (t ∷ ts) =
      if t.id == default_flow then t.target_ref ∷ [] else default_target default_flow ts

  -- Every path whose condition holds.
  unfoldable pub matching : StepFields → List Transition → List String
  unfolding is_default holds
  matching step [] = []
  matching step (t ∷ ts) =
      let rest = matching step ts in
      if is_default step t then rest else if holds t then t.target_ref ∷ rest else rest

  -- The first path whose condition holds.
  unfoldable pub first_matching : StepFields → List Transition → List String
  unfolding is_default holds
  first_matching step [] = []
  first_matching step (t ∷ ts) =
      let rest = first_matching step ts in
      if is_default step t then rest else if holds t then t.target_ref ∷ [] else rest

  or_default : StepFields → List String → List String
  unfolding default_target
  or_default step [] =
      if is_empty step.default_flow then [] else default_target step.default_flow step.outgoing
  or_default step (id ∷ ids) = id ∷ ids

  some_path : List String → Option (List String)
  some_path [] = none
  some_path (id ∷ ids) = some (id ∷ ids)

  -- `none` is the error that no path was found.
  unfoldable pub determine_next_step_ids : StepFields → Option (List String)
  unfolding matching first_matching or_default some_path
  determine_next_step_ids step = elim step.type [
    | StepType.gateway_parallel ↦ some (map (λ t. t.target_ref) step.outgoing)
    | StepType.gateway_event_based ↦ some (map (λ t. t.target_ref) step.outgoing)
    | StepType.gateway_inclusive ↦ some_path (or_default step (matching step step.outgoing))
    | _ ↦ some_path (or_default step (first_matching step step.outgoing))
  ]
