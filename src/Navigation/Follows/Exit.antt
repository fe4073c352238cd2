-- ===== src/Navigation/Follows/Exit.antt =====
-- Leaving a step is a sequence of steps if the functions that it calls back are.
use flow_go.Prelude.{ℕ, String, refl, Option, none, some}
use flow_go.Prelude.Int.{ℤ}
use flow_go.Model.Value.{Value}
use flow_go.Model.Workflow.{StepFields, Execution, ExecutionStatus}
use flow_go.Navigation.World.{World, WorkflowDefinition, Env, Failure, Nav, Outcome, done, failed}
use flow_go.Navigation.Steps.{
  Outside, Reaches, Follows, pure-Follows, bind-Follows, then-Follows, set_status-Follows,
  put_execution-Follows,
}
use flow_go.Navigation.Exit.{
  Moves, wrapped, wrap_error, notify_if_called, proceed_if_active, proceed_sub_process,
  check_sub_process_completion, complete_element, end_of_path, complete_execution_at, scope_index,
  merge_into_scope, exit_parallel, inject_item, next_iteration, complete_scope, exit_sequential,
  cancel_timers, exit_standard, exit_step,
}
use flow_go.Navigation.Follows.Tokens.{
  basics, get_context-Follows, update_context-Follows, persist_variables-Follows, lift-Follows,
  get_executions-Follows, execution_at-Follows, update_element-Follows, new_execution-Follows,
  end_element-Follows, create_element-Follows, complete_if_no_active-Follows,
}

pub record MovesFollow (env : Env) (out : Outside) (moves : Moves) : Type 0 where
  pub proceed_follows : (id : String) → Follows env out (moves.proceed id)
  pub advance_follows : (id : String) → Follows env out (moves.advance id)
  pub notify_follows : Follows env out moves.notify_parent

module _ (env : Env) (out : Outside) where
  wrapped-Follows :
      {A : Type 0} (f : Failure → Failure) (w : World) (r : Outcome A × World)
      → Reaches env out w r.1
      → Reaches env out w (wrapped f r).1
  wrapped-Follows f w (done a, v) p = p
  wrapped-Follows f w (failed e, v) p = p

  pub wrap_error-Follows :
      {A : Type 0} (f : Failure → Failure) (m : Nav A)
      → Follows env out m
      → Follows env out (wrap_error f m)
  unfolding wrap_error
  wrap_error-Follows f m h = record { path = λ w. wrapped-Follows f w (m w) (h.path w) }

module _ (env : Env) (out : Outside) (wf : WorkflowDefinition) (moves : Moves)
    (back : MovesFollow env out moves) where
  open back use {proceed_follows, advance_follows, notify_follows}

  notify-Follows : (parent : Option ℕ) → Follows env out (notify_if_called env wf moves parent)
  unfolding notify_if_called
  notify-Follows none = pure-Follows env out tt
  notify-Follows (some parent) = notify_follows

  proceed_if_active-Follows :
      (parent : Option Execution) → Follows env out (proceed_if_active env wf moves parent)
  unfolding proceed_if_active
  proceed_if_active-Follows none = pure-Follows env out tt
  proceed_if_active-Follows (some parent) = search (basics, proceed_follows)

  proceed_sub_process-Follows :
      (ex : Option Execution) → Follows env out (proceed_sub_process env wf moves ex)
  unfolding proceed_sub_process
  proceed_sub_process-Follows none = pure-Follows env out tt
  proceed_sub_process-Follows (some ex) =
      search (basics, get_executions-Follows, proceed_if_active-Follows) depth 10

  check_sub_process-Follows :
      (id : String) → Follows env out (check_sub_process_completion env wf moves id)
  unfolding check_sub_process_completion
  check_sub_process-Follows id =
      search (basics, get_executions-Follows, proceed_sub_process-Follows)

  complete_element-Follows :
      (step_id : String) (key : ℕ) → Follows env out (complete_element env wf moves step_id key)
  unfolding complete_element
  complete_element-Follows step_id key = search (basics, update_element-Follows) depth 10

  pub end_of_path-Follows :
      (i : ℕ) (step_id id : String) → Follows env out (end_of_path env wf moves i step_id id)
  unfolding end_of_path
  end_of_path-Follows i step_id id =
      then-Follows env out _ _ (set_status-Follows env out i ExecutionStatus.completed refl) (
        search
          (
            basics, execution_at-Follows, complete_element-Follows, complete_if_no_active-Follows,
            check_sub_process-Follows, notify-Follows,
          )
          depth 12)

  complete_at-Follows : (i : ℕ) → Follows env out (complete_execution_at env wf moves i)
  unfolding complete_execution_at
  complete_at-Follows i =
      then-Follows env out _ _ (set_status-Follows env out i ExecutionStatus.completed refl)
        (search (basics, execution_at-Follows, end_element-Follows) depth 8)

  scope_index-Follows : (id : String) → Follows env out (scope_index env wf moves id)
  unfolding scope_index
  scope_index-Follows id = search (basics, get_executions-Follows, lift-Follows)

  merge-Follows : (i : ℕ) (id : String) → Follows env out (merge_into_scope env wf moves i id)
  unfolding merge_into_scope
  merge-Follows i id = bind-Follows env out _ _ (scope_index-Follows id) (λ p.
      bind-Follows env out _ _ (complete_at-Follows p) (λ parent.
        then-Follows env out _ _ (put_execution-Follows env out i _ refl) (pure-Follows env out _)))

  exit_parallel-Follows : (i : ℕ) → Follows env out (exit_parallel env wf moves i)
  unfolding exit_parallel
  exit_parallel-Follows i =
      search (basics, complete_at-Follows, get_executions-Follows, merge-Follows) depth 8

  pub inject-Follows :
      (key : ℕ) (v : Option (String × Value)) → Follows env out (inject_item env wf moves key v)
  unfolding inject_item
  inject-Follows key none = pure-Follows env out tt
  inject-Follows key (some v) = persist_variables-Follows env out key _

  next_iteration-Follows :
      (step : StepFields) (parent : Execution) (index : ℤ)
      → Follows env out (next_iteration env wf moves step parent index)
  unfolding next_iteration
  next_iteration-Follows step parent index =
      search
        (
          basics, persist_variables-Follows, update_context-Follows, new_execution-Follows,
          get_context-Follows, inject-Follows, create_element-Follows, advance_follows,
        )
        depth 16

  complete_scope-Follows : (p : ℕ) → Follows env out (complete_scope env wf moves p)
  unfolding complete_scope
  complete_scope-Follows p = search (basics, complete_at-Follows)

  exit_sequential-Follows :
      (step : StepFields) (i : ℕ) → Follows env out (exit_sequential env wf moves step i)
  unfolding exit_sequential
  exit_sequential-Follows step i =
      search
        (
          basics, complete_at-Follows, scope_index-Follows, execution_at-Follows,
          get_context-Follows, next_iteration-Follows, complete_scope-Follows,
        )
        depth 12

  cancel_timers-Follows : (key : ℕ) → Follows env out (cancel_timers env wf moves key)
  unfolding cancel_timers
  cancel_timers-Follows key = search basics

  exit_standard-Follows : (i : ℕ) → Follows env out (exit_standard env wf moves i)
  unfolding exit_standard
  exit_standard-Follows i = search (basics, complete_at-Follows, cancel_timers-Follows)

  pub exit_step-Follows :
      (step : StepFields) (i : ℕ) → Follows env out (exit_step env wf moves step i)
  unfolding exit_step
  exit_step-Follows step i =
      search (basics, exit_parallel-Follows, exit_sequential-Follows, exit_standard-Follows)
