-- ===== src/Jobs/Interface.antt =====
-- What the job operations use of the navigation engine (navigation.go, engine.go), as operations
-- that nothing is assumed of. Merging variables into an instance (GetInstance and
-- persistVariables) writes the table of variables and publishes an event for each: it answers that
-- table and these events, or the error that stops it. Moving on
-- the execution of a completed job (completeExecution) and announcing an escalation
-- (publishEscalation) may do anything to the session.
use flow_go.Prelude.{ℕ, String, List}
use flow_go.Model.{Job, Variable}
use flow_go.Model.Event.{Event}
use flow_go.Engine.Tx.{Result, Session, Tx}

pub record Navigation : Type 1 where
  pub Value : Type 0
  pub merge_variables : ℕ → List (String × Value) → Session → Result (List Variable × List Event)
  pub complete_execution : ℕ → ℕ → Tx (Unit {0})
  pub publish_escalation : String → Job → ℕ → Tx (Unit {0})
