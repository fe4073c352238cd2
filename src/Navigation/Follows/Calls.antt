-- ===== src/Navigation/Follows/Calls.antt =====
-- The code that a navigation calls and that is not part of it: publishing to other instances,
-- starting a called process, reading the instance back, and notifying the parent.
use flow_go.Prelude.{ℕ, String, ◌≡◌, refl, Option, none, some}
use flow_go.Model.Value.{Variables}
use flow_go.Model.Workflow.{StepFields, Execution, WorkflowInstance, WorkflowStatus}
use flow_go.Navigation.Executors.{Publishing}
use flow_go.Navigation.Executors.Called.{
  replaced_by, reload_instance, after_start, start_child, execute_call,
}
use flow_go.Navigation.Executors.Work.{Services}
use flow_go.Navigation.Follows.Tokens.{
  basics, get_context-Follows, lift-Follows, get_executions-Follows,
}
use flow_go.Navigation.Steps.{
  Outside, Follows, Reaches, stop, one_step, left, pure-Follows, if-Follows,
}
use flow_go.Navigation.World.{World, Env, Nav}

module _ (publishing : Publishing) (services : Services) (notify : Nav (Unit {0})) where
  -- One run of that code, from the world that it is called in to the one that it leaves.
  pub data Calls : World → World → Type 0 where
    signalled : (name : String) (w : World) → Calls w (publishing.publish_signal name w).1
    messaged : (name key : String) (w : World) → Calls w (publishing.publish_message name key w).1
    escalated : (code : String) (w : World) → Calls w (publishing.publish_escalation code w).1
    started :
        (definition : ℕ) (context : Variables) (parent element : ℕ) (w : World)
        → Calls w (services.start_called definition context parent element w).1
    reloaded :
        (w : World) (updated : WorkflowInstance)
        → services.get_instance w.instance_.key w.session.db ≡ some updated
        → Calls w (record w { instance_ = updated })
    notified : (w : World) → Calls w (notify w).1

module _ (env : Env) (out : Outside) (services : Services)
    (start : (definition : ℕ) (context : Variables) (parent element : ℕ)
      → Follows env out (services.start_called definition context parent element))
    (reload : Follows env out (reload_instance services)) where
  after_start-Follows : (status : WorkflowStatus) → Follows env out (after_start services status)
  unfolding after_start
  after_start-Follows status = if-Follows env out _ _ _ reload (pure-Follows env out tt)

  start_child-Follows :
      (ex : Execution) (definition : ℕ) → Follows env out (start_child services ex definition)
  unfolding start_child
  start_child-Follows ex definition =
      search (basics, get_context-Follows, start, after_start-Follows) depth 10

  pub execute_call-Follows :
      (fields : StepFields) (id : String) → Follows env out (execute_call services fields id)
  unfolding execute_call
  execute_call-Follows fields id =
      search (basics, get_executions-Follows, lift-Follows, start_child-Follows) depth 10

-- Reading the instance back is a run of that code, or changes nothing.
replaced_by-Reaches :
    (env : Env) (publishing : Publishing) (services : Services) (notify : Nav (Unit {0}))
    (w : World) (o : Option WorkflowInstance)
    → services.get_instance w.instance_.key w.session.db ≡ o
    → Reaches env (Calls publishing services notify) w (replaced_by o w).1
replaced_by-Reaches env publishing services notify w none e = stop w
replaced_by-Reaches env publishing services notify w (some updated) e =
    one_step env (Calls publishing services notify) w (record w { instance_ = updated })
      (left w (record w { instance_ = updated }) (reloaded w updated e))

pub reload_instance-Follows :
    (env : Env) (publishing : Publishing) (services : Services) (notify : Nav (Unit {0}))
    → Follows env (Calls publishing services notify) (reload_instance services)
unfolding reload_instance
reload_instance-Follows env publishing services notify = record {
  path = λ w. replaced_by-Reaches env publishing services notify w _ refl;
}
