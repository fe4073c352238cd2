-- ===== src/Navigation/Follows/Boundary.antt =====
-- What boundary events and cancelled transactions do is a sequence of steps.
use flow_go.Prelude.{
  ℕ, String, ◌≡◌, refl, Bool, true, false, List, [], ◌∷◌, map, Option, none, some, arith,
}
use flow_go.Model.Workflow.{
  StepDefinition, StepFields, Transition, Execution, ExecutionStatus, is_active, fields_of,
  find_step,
}
use flow_go.Navigation.Boundary.{
  spawn_at, spawn_flows, terminate_at, interrupt, record_completion, catch_at, caught,
  handle_boundary_error, trigger_boundary_path, trigger_cancel, trigger_cancels, cancelled_in,
  terminate_scope, cancel_transaction_scope,
}
use flow_go.Navigation.Exit.{Moves}
use flow_go.Navigation.Follows.Exit.{MovesFollow}
use flow_go.Navigation.Follows.Tokens.{
  basics, lift-Follows, get_executions-Follows, execution_at-Follows, new_execution-Follows,
  end_element-Follows, create_scoped-Follows, complete_if_no_active-Follows,
}
use flow_go.Navigation.Steps.{
  Outside, StaysCalm, Follows, pure-Follows, bind-Follows, then-Follows, set_status-Follows,
  change-Follows,
}
use flow_go.Navigation.World.{WorkflowDefinition, Env, Failure}

-- A change of each execution that makes none active.
pub StaysCalm-map :
    (f : Execution → Execution)
    → ((ex : Execution) → is_active (f ex).status ≡ true → is_active ex.status ≡ true)
    → (xs : List Execution) → StaysCalm xs (map f xs)
StaysCalm-map f h [] = tt
StaysCalm-map f h (x ∷ xs) = (h x, StaysCalm-map f h xs)

cancelled_in-calm :
    (scope_id step_id : String) (ex : Execution)
    → is_active (cancelled_in scope_id step_id ex).status ≡ true
    → is_active ex.status ≡ true
unfolding cancelled_in
cancelled_in-calm scope_id step_id ex h = ground arith

module _ (env : Env) (out : Outside) (wf : WorkflowDefinition) (moves : Moves)
    (back : MovesFollow env out moves) where
  open back use {advance_follows}

  spawn_at-Follows :
      (step_of : String → Option StepFields) (parent_id target : String)
      → Follows env out (spawn_at env wf moves step_of parent_id target)
  unfolding spawn_at
  spawn_at-Follows step_of parent_id target =
      search (basics, new_execution-Follows, create_scoped-Follows, advance_follows) depth 10

  spawn_flows-Follows :
      (step_of : String → Option StepFields) (parent_id : String) (ts : List Transition)
      → Follows env out (spawn_flows env wf moves step_of parent_id ts)
  unfolding spawn_flows
  spawn_flows-Follows step_of parent_id [] = pure-Follows env out tt
  spawn_flows-Follows step_of parent_id (t ∷ ts) =
      then-Follows env out _ _ (spawn_at-Follows step_of parent_id t.target_ref)
        (spawn_flows-Follows step_of parent_id ts)

  terminate_at-Follows : (i key : ℕ) → Follows env out (terminate_at env wf moves i key)
  unfolding terminate_at
  terminate_at-Follows i key =
      then-Follows env out _ _ (set_status-Follows env out i ExecutionStatus.terminated refl)
        (end_element-Follows env out _ key)

  interrupt-Follows :
      (cancels : Bool) (i : Option ℕ) → Follows env out (interrupt env wf moves cancels i)
  unfolding interrupt
  interrupt-Follows cancels none = pure-Follows env out _
  interrupt-Follows cancels (some i) =
      search (basics, execution_at-Follows, terminate_at-Follows) depth 8

  record_completion-Follows : Follows env out (record_completion env wf moves)
  unfolding record_completion
  record_completion-Follows = search basics depth 8

  catch_at-Follows :
      (boundary : StepFields) (id : String) → Follows env out (catch_at env wf moves boundary id)
  unfolding catch_at
  catch_at-Follows boundary id =
      search
        (
          basics, get_executions-Follows, interrupt-Follows, spawn_flows-Follows,
          record_completion-Follows,
        )
        depth 12

  caught-Follows :
      (id : String) (boundary : Option StepFields)
      → Follows env out (caught env wf moves id boundary)
  unfolding caught
  caught-Follows id none = pure-Follows env out false
  caught-Follows id (some boundary) = search (basics, catch_at-Follows)

  pub handle_boundary-Follows :
      (fields : StepFields) (id : String) (e : Failure)
      → Follows env out (handle_boundary_error env wf moves fields id e)
  unfolding handle_boundary_error
  handle_boundary-Follows fields id e = caught-Follows id _

  trigger_boundary-Follows :
      (boundary : StepFields) (id : String)
      → Follows env out (trigger_boundary_path env wf moves boundary id)
  unfolding trigger_boundary_path
  trigger_boundary-Follows boundary id =
      search (basics, get_executions-Follows, interrupt-Follows, spawn_flows-Follows) depth 8

  trigger_cancel-Follows :
      (id : String) (boundary : Option StepDefinition)
      → Follows env out (trigger_cancel env wf moves id boundary)
  unfolding trigger_cancel
  trigger_cancel-Follows id none = pure-Follows env out tt
  trigger_cancel-Follows id (some boundary) = search (basics, trigger_boundary-Follows)

  trigger_cancels-Follows :
      (id : String) (refs : List String) → Follows env out (trigger_cancels env wf moves id refs)
  unfolding trigger_cancels
  trigger_cancels-Follows id [] = pure-Follows env out tt
  trigger_cancels-Follows id (ref ∷ refs) =
      then-Follows env out _ _ (trigger_cancel-Follows id (find_step ref wf.steps))
        (trigger_cancels-Follows id refs)

  terminate_scope-Follows : (i : Option ℕ) → Follows env out (terminate_scope env wf moves i)
  unfolding terminate_scope
  terminate_scope-Follows none = pure-Follows env out _
  terminate_scope-Follows (some i) =
      bind-Follows env out _ _ (execution_at-Follows env out i) (λ ex.
        then-Follows env out _ _ (set_status-Follows env out i ExecutionStatus.terminated refl)
          (pure-Follows env out ex.step_id))

  pub cancel_scope-Follows :
      (scope_id : String) → Follows env out (cancel_transaction_scope env wf moves scope_id)
  unfolding cancel_transaction_scope
  cancel_scope-Follows scope_id =
      bind-Follows env out _ _ (get_executions-Follows env out) (λ executions.
        bind-Follows env out _ _ (terminate_scope-Follows _) (λ step_id.
          bind-Follows env out _ _ (lift-Follows env out _ _) (λ found.
            then-Follows env out _ _
              (change-Follows env out _ (
                StaysCalm-map (cancelled_in scope_id step_id) (cancelled_in-calm scope_id step_id)))
              (then-Follows env out _ _
                (trigger_cancels-Follows step_id (fields_of found).boundary_event_refs)
                (complete_if_no_active-Follows env out wf)))))
