-- ===== src/Navigation/Incidents.antt =====
-- Errors that no boundary event catches (autoAdvance of navigation.go).
use flow_go.Prelude.{ℕ, suc, ◌≡◌, ◌≢◌, [], ◌∷◌, ◌++◌, none, arith, nat_eq}
use flow_go.Prelude.Int.{ℤ}
use flow_go.Model.{Incident, IncidentState}
use flow_go.Model.Workflow.{StepFields, Execution}
use flow_go.Repository.Incidents.{is_about, list_incidents, list_incidents-skip}
use flow_go.Navigation.Boundary.{caught, first_catching, handle_boundary_error}
use flow_go.Navigation.Engine.{raise_incident, handle_error}
use flow_go.Navigation.Executors.{Publishing}
use flow_go.Navigation.Executors.Work.{Services}
use flow_go.Navigation.Exit.{Moves}
use flow_go.Navigation.World.{
  World, WorkflowDefinition, Env, Failure, Nav, done, pure, ◌>>=◌, draw, store,
}

module _ (env : Env) (wf : WorkflowDefinition) (publishing : Publishing) (services : Services)
    (notify : Nav (Unit {0})) (moves : Moves) where
  -- The row for an error at `ex`, when the surroundings have answered `n` times.
  abbrev pub raised : ℕ → Execution → Failure → Incident
  raised n ex e = record {
    key = env.snowflake n;
    id = env.uuid (suc n);
    process_instance_key = env.snowflake (suc (suc n));
    element_instance_key = ex.element_instance_key;
    job_key = 0;
    error_type = "EXECUTION_ERROR";
    error_message = env.error_text e;
    state = IncidentState.created;
    created_at = env.now (suc (suc (suc n)));
  }

  handle_error-raises :
      (fields : StepFields) (ex : Execution) (e : Failure) (w : World)
      → first_catching env wf moves e fields.boundary_event_refs ≡ none
      → (handle_error env wf publishing services notify moves fields ex e w).1.session.db.incidents
        ≡ w.session.db.incidents ++ raised w.draws ex e ∷ []
  unfolding handle_error raise_incident handle_boundary_error caught pure ◌>>=◌ draw store
  handle_error-raises fields ex e w h = rw h

  -- An error that no boundary event catches raises one incident, with the element instance, and the
  -- error is dropped. If the generator does not draw the key of the process instance again, which
  -- is not 0, then listing the incidents of this instance shows no more than before.
  pub handle_error-unlisted :
      (fields : StepFields) (ex : Execution) (e : Failure) (limit : ℤ) (w : World)
      → first_catching env wf moves e fields.boundary_event_refs ≡ none
      → w.instance_.key ≢ 0
      → ((n : ℕ) → env.snowflake n ≢ w.instance_.key)
      → ((handle_error env wf publishing services notify moves fields ex e w).0 ≡ done tt)
        × ((handle_error env wf publishing services notify moves fields ex e
              w).1.session.db.incidents
            ≡ w.session.db.incidents ++ raised w.draws ex e ∷ [])
        × (list_incidents w.instance_.key limit
              (handle_error env wf publishing services notify moves fields ex e
                w).1.session.db.incidents
            ≡ list_incidents w.instance_.key limit w.session.db.incidents)
  unfolding handle_error raise_incident handle_boundary_error caught pure ◌>>=◌ draw store is_about
  handle_error-unlisted fields ex e limit w h nonzero fresh = (
    rw h,
    handle_error-raises fields ex e w h,
    rw h (
        list_incidents-skip w.instance_.key limit w.session.db.incidents (raised w.draws ex e)
          (ground (arith, fresh (suc (suc w.draws))))),
  )
