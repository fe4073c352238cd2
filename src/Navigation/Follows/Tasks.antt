-- ===== src/Navigation/Follows/Tasks.antt =====
-- The executors of user, script and rule tasks and of calls are sequences of steps.
use flow_go.Prelude.{ℕ, String, Bool, Option, none, some, nat_eq, string_eq}
use flow_go.Model.{Job}
use flow_go.Model.Workflow.{StepFields, Execution}
use flow_go.Navigation.Executors.Tasks.{
  create_user_task, announce_job, execute_user_task, script_incident, after_script, execute_script,
  after_decision, execute_business_rule,
}
use flow_go.Navigation.Executors.Work.{
  ScriptResult, script_error, script_done, DecisionResult, undecided, decided, Services,
}
use flow_go.Navigation.Exit.{Moves}
use flow_go.Navigation.Follows.Exit.{MovesFollow}
use flow_go.Navigation.Follows.Tokens.{
  basics, get_context-Follows, update_context-Follows, persist_variables-Follows, lift-Follows,
  get_executions-Follows,
}
use flow_go.Navigation.Steps.{Outside, Follows, pure-Follows, fail-Follows}
use flow_go.Navigation.World.{WorkflowDefinition, Env}
use flow_go.Navigation.Follows.Work.{
  insert_job-Follows, run_listeners-Follows, persist_changed-Follows,
}

module _ (env : Env) (out : Outside) (wf : WorkflowDefinition) (moves : Moves)
    (back : MovesFollow env out moves) (services : Services) where
  open back use {proceed_follows}

  announce_job-Follows : (job : Job) → Follows env out (announce_job env wf moves services job)
  unfolding announce_job
  announce_job-Follows job = search basics

  create_user_task-Follows :
      (key : ℕ) (fields : StepFields) (ex : Execution) (o : Option Job)
      → Follows env out (create_user_task env wf moves services key fields ex o)
  unfolding create_user_task
  create_user_task-Follows key fields ex (some job) = pure-Follows env out tt
  create_user_task-Follows key fields ex none =
      search
        (
          basics,
          insert_job-Follows env out wf moves back services,
          announce_job-Follows,
          run_listeners-Follows env out wf moves back services,
        )
        depth 16

  pub execute_user_task-Follows :
      (fields : StepFields) (id : String)
      → Follows env out (execute_user_task env wf moves services fields id)
  unfolding execute_user_task
  execute_user_task-Follows fields id =
      search (basics, get_executions-Follows, lift-Follows, create_user_task-Follows) depth 10

  script_incident-Follows :
      (timeout : Bool) (message id : String)
      → Follows env out (script_incident env wf moves services timeout message id)
  unfolding script_incident
  script_incident-Follows timeout message id = search (basics, get_executions-Follows) depth 12

  after_script-Follows :
      (fields : StepFields) (id : String) (r : ScriptResult)
      → Follows env out (after_script env wf moves services fields id r)
  unfolding after_script
  after_script-Follows fields id (script_error timeout message) =
      search (basics, script_incident-Follows)
  after_script-Follows fields id (script_done globals value) =
      search
        (
          basics,
          get_context-Follows,
          update_context-Follows,
          persist_changed-Follows env out wf moves back services,
          proceed_follows,
        )
        depth 12

  pub execute_script-Follows :
      (fields : StepFields) (id : String)
      → Follows env out (execute_script env wf moves services fields id)
  unfolding execute_script
  execute_script-Follows fields id =
      search (basics, get_context-Follows, after_script-Follows, proceed_follows) depth 10

  after_decision-Follows :
      (fields : StepFields) (id : String) (r : DecisionResult)
      → Follows env out (after_decision env wf moves services fields id r)
  unfolding after_decision
  after_decision-Follows fields id (undecided message) = fail-Follows env out _
  after_decision-Follows fields id (decided outputs) =
      search (basics, update_context-Follows, persist_variables-Follows, proceed_follows) depth 10

  pub execute_rule-Follows :
      (fields : StepFields) (id : String)
      → Follows env out (execute_business_rule env wf moves services fields id)
  unfolding execute_business_rule
  execute_rule-Follows fields id =
      search (basics, get_context-Follows, after_decision-Follows, proceed_follows) depth 8
