-- ===== src/Gateway/Reach.antt =====
-- canReach of backend/services/workflow-command/internal/application/gateway_logic.go: a
-- breadth-first search over the outgoing transitions of a workflow's steps. The search runs on
-- fuel, one unit for each step that leaves the queue; a step enters the queue once, as the target
-- of some transition.

pub mod Path
pub mod Ends
pub mod Correct
use flow_go.Prelude.{
  ℕ, zero, suc, String, Bool, true, false, List, [], ◌∷◌, ◌++◌, map, Option, none, some, ◌==◌,
  string_eq, length, if◌then◌else◌,
}
use flow_go.Prelude.Assoc.{lookup, insert}
use flow_go.Model.Workflow.{Transition, StepFields, StepDefinition, step, Steps, no_steps, add_step}

abbrev pub StepMap : Type 0
StepMap = List (String × StepFields)

-- `indexSteps`: the steps in order, each before its sub-steps.
unfoldable mutual
  pub index_step : StepDefinition → StepMap → StepMap
  index_step (step fields subs) m = index_steps subs (insert fields.id fields m)

  pub index_steps : Steps → StepMap → StepMap
  index_steps no_steps m = m
  index_steps (add_step s ss) m = index_steps ss (index_step s m)

unfoldable pub mem : String → List String → Bool
mem v [] = false
mem v (x ∷ xs) = if x == v then true else mem v xs

targets_of : Option StepFields → List String
targets_of none = []
targets_of (some fields) = map (λ t. t.target_ref) fields.outgoing

-- The targets of a step, in order; a step that is not there has none.
unfoldable pub targets : StepMap → String → List String
unfolding targets_of lookup
targets m id = targets_of (lookup id m)

pub record Search : Type 0 where
  pub visited : List String
  pub queue : List String

-- The loop over one step's transitions.
unfoldable pub visit : List String → Search → Search
unfolding mem
visit [] s = s
visit (v ∷ vs) s =
    let rest =
      if mem v s.visited
      then s
      else record { visited = v ∷ s.visited; queue = s.queue ++ v ∷ [] } in
    visit vs rest

unfoldable pub search : StepMap → String → ℕ → List String → List String → Option Bool
unfolding visit targets
search m target fuel visited [] = some false
search m target zero visited (curr ∷ queue) = none
search m target (suc fuel) visited (curr ∷ queue) =
    let s = visit (targets m curr) (record { visited = visited; queue = queue }) in
    let rest = search m target fuel s.visited s.queue in if curr == target then some true else rest

unfoldable pub all_targets : StepMap → List String
all_targets [] = []
all_targets ((id, fields) ∷ m) = map (λ t. t.target_ref) fields.outgoing ++ all_targets m

-- `none` stands for a search that runs out of fuel.
unfoldable pub can_reach : String → String → Steps → Option Bool
unfolding search index_steps all_targets
can_reach start_step_id target_step_id steps =
    let m = index_steps steps [] in
    if start_step_id == target_step_id
    then some true
    else search m target_step_id (suc (length (all_targets m))) (start_step_id ∷ [])
        (start_step_id ∷ [])
