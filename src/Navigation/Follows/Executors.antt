-- ===== src/Navigation/Follows/Executors.antt =====
-- The executors of start and catch events, sub-processes and gateways are sequences of steps.
use flow_go.Prelude.{ℕ, String, refl, Bool, true, false, List, [], ◌∷◌, Option, none, some}
use flow_go.Model.Workflow.{StepFields, Execution, ExecutionStatus}
use flow_go.Navigation.Executors.{
  forgotten, forget_error, condition_holds, proceed_unless, execute_start, execute_catch,
  start_inside, execute_sub_process, consume, consume_each, pass_join, join, execute_gateway,
  compensate_scope, compensate_from, start_for_escalation,
}
use flow_go.Navigation.Executors.Throw.{failed_after, also_then, also}
use flow_go.Navigation.Exit.{Moves}
use flow_go.Navigation.Follows.Exit.{MovesFollow}
use flow_go.Navigation.Follows.Tokens.{
  basics, lift-Follows, get_executions-Follows, execution_at-Follows, new_execution-Follows,
  end_element-Follows, create_scoped-Follows,
}
use flow_go.Navigation.Follows.Triggers.{try_start_event-Follows, compensation-Follows}
use flow_go.Navigation.Steps.{
  Outside, Reaches, Reaches-trans, Follows, pure-Follows, bind-Follows, then-Follows, if-Follows,
  set_status-Follows,
}
use flow_go.Navigation.World.{
  World, WorkflowDefinition, Env, Failure, Nav, Outcome, done, failed, out_of_fuel,
}

module _ (env : Env) (out : Outside) where
  forgotten-Follows :
      (w : World) (r : Outcome (Unit {0}) × World)
      → Reaches env out w r.1
      → Reaches env out w (forgotten r).1
  forgotten-Follows w (done a, v) p = p
  forgotten-Follows w (failed out_of_fuel, v) p = p
  forgotten-Follows w (failed _, v) p = p

  forget-Follows : (m : Nav (Unit {0})) → Follows env out m → Follows env out (forget_error m)
  unfolding forget_error
  forget-Follows m h = record { path = λ w. forgotten-Follows w (m w) (h.path w) }

  failed_after-Follows :
      (e : Failure) (w : World) (r : Outcome (Unit {0}) × World)
      → Reaches env out w r.1
      → Reaches env out w (failed_after e r).1
  failed_after-Follows e w (done a, v) p = p
  failed_after-Follows e w (failed x, v) p = p

  also_then-Follows :
      (k : Nav (Unit {0}))
      → Follows env out k
      → (w : World) (r : Outcome (Unit {0}) × World) → Reaches env out w r.1
      → Reaches env out w (also_then r k).1
  also_then-Follows k h w (done a, v) p = Reaches-trans env out w v (k v).1 p (h.path v)
  also_then-Follows k h w (failed e, v) p =
      failed_after-Follows e w (k v) (Reaches-trans env out w v (k v).1 p (h.path v))

  pub also-Follows :
      (m k : Nav (Unit {0})) → Follows env out m → Follows env out k → Follows env out (also m k)
  unfolding also
  also-Follows m k p q = record { path = λ w. also_then-Follows k q w (m w) (p.path w) }

module _ (env : Env) (out : Outside) (wf : WorkflowDefinition) (moves : Moves)
    (back : MovesFollow env out moves) where
  open back use {proceed_follows, advance_follows}

  condition-Follows : (c : String) → Follows env out (condition_holds env wf moves c)
  unfolding condition_holds
  condition-Follows c = search basics

  unless-Follows :
      (stays : Bool) (id : String) → Follows env out (proceed_unless env wf moves stays id)
  unfolding proceed_unless
  unless-Follows stays id = search (basics, proceed_follows)

  pub execute_start-Follows :
      (fields : StepFields) (id : String) → Follows env out (execute_start env wf moves fields id)
  unfolding execute_start
  execute_start-Follows fields id = search (basics, condition-Follows, unless-Follows)

  pub execute_catch-Follows :
      (fields : StepFields) (id : String) → Follows env out (execute_catch env wf moves fields id)
  unfolding execute_catch
  execute_catch-Follows fields id = search (basics, condition-Follows, unless-Follows)

  start_inside-Follows :
      (id : String) (start : StepFields) → Follows env out (start_inside env wf moves id start)
  unfolding start_inside
  start_inside-Follows id start =
      search (basics, new_execution-Follows, create_scoped-Follows, advance_follows) depth 8

  pub execute_sub_process-Follows :
      (start : Option StepFields) (id : String)
      → Follows env out (execute_sub_process env wf moves start id)
  unfolding execute_sub_process
  execute_sub_process-Follows none id = proceed_follows id
  execute_sub_process-Follows (some start) id = start_inside-Follows id start

  consume-Follows :
      (id : String) (ex : Option Execution) (i : ℕ) → Follows env out (consume env wf moves id ex i)
  unfolding consume
  consume-Follows id none i = pure-Follows env out tt
  consume-Follows id (some ex) i = if-Follows env out _ _ _ (pure-Follows env out tt) (
      then-Follows env out _ _ (set_status-Follows env out i ExecutionStatus.completed refl)
        (end_element-Follows env out _ ex.element_instance_key))

  consume_each-Follows :
      (id : String) (is : List ℕ) → Follows env out (consume_each env wf moves id is)
  unfolding consume_each
  consume_each-Follows id [] = pure-Follows env out tt
  consume_each-Follows id (i ∷ is) =
      bind-Follows env out _ _ (execution_at-Follows env out i) (λ ex.
        then-Follows env out _ _ (consume-Follows id (some ex) i) (consume_each-Follows id is))

  pass_join-Follows :
      (id : String) (answer : Bool × List ℕ) → Follows env out (pass_join env wf moves id answer)
  unfolding pass_join
  pass_join-Follows id (false, indices) = pure-Follows env out tt
  pass_join-Follows id (true, indices) = search (basics, consume_each-Follows, proceed_follows)

  join-Follows : (fields : StepFields) (id : String) → Follows env out (join env wf moves fields id)
  unfolding join
  join-Follows fields id =
      search (basics, get_executions-Follows, lift-Follows, pass_join-Follows) depth 8

  pub execute_gateway-Follows :
      (fields : StepFields) (id : String) → Follows env out (execute_gateway env wf moves fields id)
  unfolding execute_gateway
  execute_gateway-Follows fields id = search (basics, join-Follows, proceed_follows)

  compensate_scope-Follows :
      (activity : String) (ex : Option Execution)
      → Follows env out (compensate_scope env wf moves activity ex)
  unfolding compensate_scope
  compensate_scope-Follows activity none = pure-Follows env out tt
  compensate_scope-Follows activity (some ex) =
      compensation-Follows env out wf moves back ex.parent_id activity

  pub compensate_from-Follows :
      (fields : StepFields) (id : String) → Follows env out (compensate_from env wf moves fields id)
  unfolding compensate_from
  compensate_from-Follows fields id =
      search (basics, get_executions-Follows, compensate_scope-Follows)

  pub start_escalation-Follows :
      (code : String) → Follows env out (start_for_escalation env wf moves code)
  unfolding start_for_escalation
  start_escalation-Follows code =
      forget-Follows env out _ (try_start_event-Follows env out wf moves back _ code none)
