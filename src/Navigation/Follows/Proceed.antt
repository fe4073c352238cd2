-- ===== src/Navigation/Follows/Proceed.antt =====
-- Entering the next steps is a sequence of steps, and so is `proceedToken` as a whole.
use flow_go.Prelude.{ℕ, String, List, [], ◌∷◌, Option, none, some}
use flow_go.Model.Value.{Value}
use flow_go.Model.Workflow.{StepDefinition, StepFields, Execution, Transition, fields_of, find_step}
use flow_go.Navigation.World.{WorkflowDefinition, Env}
use flow_go.Navigation.Steps.{Outside, Follows, pure-Follows, bind-Follows, then-Follows}
use flow_go.Navigation.Exit.{Moves, end_of_path}
use flow_go.Navigation.Enter.{
  spawn_child, spawn_children, spawn_first, enter_loop, arrive_at, enter_single, enter_step,
  enter_targets,
}
use flow_go.Navigation.Proceed.{enter_from, leave_step, leave_or_end, proceed_token}
use flow_go.Navigation.Follows.Tokens.{
  basics, get_context-Follows, update_context-Follows, persist_variables-Follows,
  output_mappings-Follows, lift-Follows, get_executions-Follows, execution_at-Follows,
  new_execution-Follows, create_element-Follows, create_scoped-Follows,
  complete_if_no_active-Follows, arrive-Follows,
}
use flow_go.Navigation.Follows.Exit.{
  MovesFollow, wrap_error-Follows, end_of_path-Follows, inject-Follows, exit_step-Follows,
}

module _ (env : Env) (out : Outside) (wf : WorkflowDefinition) (moves : Moves)
    (back : MovesFollow env out moves) where
  open back use {proceed_follows, advance_follows, notify_follows}

  spawn_child-Follows :
      (step : StepFields) (scope : Execution) (item : Value)
      → Follows env out (spawn_child env wf moves step scope item)
  unfolding spawn_child
  spawn_child-Follows step scope item =
      search
        (
          basics,
          new_execution-Follows,
          create_element-Follows,
          inject-Follows env out wf moves back,
          advance_follows,
        )
        depth 14

  spawn_children-Follows :
      (step : StepFields) (scope : Execution) (items : List Value)
      → Follows env out (spawn_children env wf moves step scope items)
  unfolding spawn_children
  spawn_children-Follows step scope [] = pure-Follows env out tt
  spawn_children-Follows step scope (item ∷ items) =
      then-Follows env out _ _ (spawn_child-Follows step scope item)
        (spawn_children-Follows step scope items)

  spawn_first-Follows :
      (step : StepFields) (scope : Execution) (items : List Value)
      → Follows env out (spawn_first env wf moves step scope items)
  unfolding spawn_first
  spawn_first-Follows step scope items =
      search
        (
          basics,
          persist_variables-Follows,
          update_context-Follows,
          new_execution-Follows,
          inject-Follows env out wf moves back,
          create_element-Follows,
          advance_follows,
        )
        depth 16

  enter_loop-Follows :
      (step : StepFields) (parent_id : String) (items : List Value)
      → Follows env out (enter_loop env wf moves step parent_id items)
  unfolding enter_loop
  enter_loop-Follows step parent_id items =
      search
        (
          basics, new_execution-Follows, create_scoped-Follows, spawn_children-Follows,
          spawn_first-Follows,
        )
        depth 12

  arrive_at-Follows :
      (step : Option StepDefinition) (key : ℕ) → Follows env out (arrive_at env wf moves step key)
  unfolding arrive_at
  arrive_at-Follows none key = pure-Follows env out tt
  arrive_at-Follows (some target) key = arrive-Follows env out wf (fields_of target) key

  enter_single-Follows :
      (target parent_id : String) → Follows env out (enter_single env wf moves target parent_id)
  unfolding enter_single
  enter_single-Follows target parent_id =
      search
        (basics, new_execution-Follows, create_scoped-Follows, arrive_at-Follows, advance_follows)
        depth 12

  enter_items-Follows :
      (step : StepFields) (target parent_id : String) (items : List Value)
      → Follows env out (elim items [
        | [] ↦ enter_single env wf moves target parent_id
        | item ∷ rest ↦ enter_loop env wf moves step parent_id (item ∷ rest)
      ])
  enter_items-Follows step target parent_id [] = enter_single-Follows target parent_id
  enter_items-Follows step target parent_id (item ∷ items) =
      enter_loop-Follows step parent_id (item ∷ items)

  enter_step-Follows :
      (step : Option StepDefinition) (target parent_id : String)
      → Follows env out (enter_step env wf moves step target parent_id)
  unfolding enter_step
  enter_step-Follows none target parent_id = enter_single-Follows target parent_id
  enter_step-Follows (some found) target parent_id =
      bind-Follows env out _ _ (get_context-Follows env out)
        (λ context. enter_items-Follows (fields_of found) target parent_id _)

  enter_targets-Follows :
      (p : ℕ) (targets : List String) → Follows env out (enter_targets env wf moves p targets)
  unfolding enter_targets
  enter_targets-Follows p [] = pure-Follows env out tt
  enter_targets-Follows p (target ∷ targets) =
      bind-Follows env out _ _ (execution_at-Follows env out p) (λ ex.
        then-Follows env out _ _
          (enter_step-Follows (find_step target wf.steps) target ex.parent_id)
          (enter_targets-Follows p targets))

  enter_from-Follows :
      (targets : List String) (p : Option ℕ) → Follows env out (enter_from env wf moves targets p)
  unfolding enter_from
  enter_from-Follows targets none = pure-Follows env out tt
  enter_from-Follows targets (some p) =
      search (basics, enter_targets-Follows, complete_if_no_active-Follows)

  leave_step-Follows :
      (step : StepFields) (i : ℕ) → Follows env out (leave_step env wf moves step i)
  unfolding leave_step
  leave_step-Follows step i =
      search
        (
          basics,
          get_context-Follows,
          lift-Follows,
          exit_step-Follows env out wf moves back,
          enter_from-Follows,
        )
        depth 10

  leave_or_end-Follows :
      (step : StepFields) (i : ℕ) (id : String)
      → Follows env out (leave_or_end env wf moves step i id)
  unfolding leave_or_end
  leave_or_end-Follows step i id = go step.outgoing
    where
      go :
          (outgoing : List Transition)
          → Follows env out (elim outgoing [
            | [] ↦ end_of_path env wf moves i step.id id
            | t ∷ ts ↦ leave_step env wf moves step i
          ])
      go [] = end_of_path-Follows env out wf moves back i step.id id
      go (t ∷ ts) = leave_step-Follows step i

  pub proceed_token-Follows : (id : String) → Follows env out (proceed_token env wf moves id)
  unfolding proceed_token
  proceed_token-Follows id =
      search
        (
          basics, get_executions-Follows, lift-Follows, execution_at-Follows, wrap_error-Follows,
          output_mappings-Follows, leave_or_end-Follows,
        )
        depth 12
