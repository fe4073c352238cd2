-- ===== src/Navigation/Arrival.antt =====
-- What a token's arrival at a step sets up (proceedToken of navigation.go): timers and message
-- subscriptions of the step and of the boundary events that are attached to it.
use flow_go.Prelude.{ℕ, String, Bool, true, false, List, [], ◌∷◌, Option, none, some, if◌then◌else◌}
use flow_go.Prelude.Assoc.{lookup}
use flow_go.Prelude.Text.{is_empty}
use flow_go.Model.{TimerState, SubscriptionState}
use flow_go.Model.Value.{Variables, text_at}
use flow_go.Model.Workflow.{StepType, StepFields, find_top_step}
use flow_go.Repository.Instances.{create_message_subscription}
use flow_go.Repository.Timers.{create_timer}
use flow_go.Navigation.World.{WorkflowDefinition, Env, Nav, pure, ◌>>=◌, ◌>>◌, asks, draw, store}
use flow_go.Navigation.Variables.{get_context}
use flow_go.Timers.Schedule.{TimerSchedule, resolve_timer_schedule}

abbrev pub is_timer_catch : StepType → Bool
is_timer_catch StepType.intermediate_timer_catch_event = true
is_timer_catch _ = false

abbrev pub waits_for_message : StepType → Bool
waits_for_message StepType.intermediate_catch_event = true
waits_for_message StepType.receive_task = true
waits_for_message _ = false

abbrev pub is_boundary_event : StepType → Bool
is_boundary_event StepType.boundary_event = true
is_boundary_event _ = false

module _ (env : Env) where
  unfoldable pub create_scheduled_timer : String → ℕ → Option TimerSchedule → Nav (Unit {0})
  create_scheduled_timer element_id element_key none = pure tt
  create_scheduled_timer element_id element_key (some schedule) = do
    key ← draw env.snowflake
    id ← draw env.uuid
    instance_key ← asks (λ w. w.instance_.key)
    created_at ← draw env.now
    store (λ db. record db {
      timers =
          create_timer
            (record {
              key = key;
              id = id;
              element_instance_key = element_key;
              process_instance_key = instance_key;
              element_id = element_id;
              due_date = schedule.due_date;
              state = TimerState.created;
              repeat_count = schedule.repeat_count;
              created_at = created_at;
            })
            db.timers;
    })

  -- A timer for a step whose properties resolve to a schedule.
  unfoldable pub schedule_timer : StepFields → ℕ → Nav (Unit {0})
  schedule_timer step element_key = do
    now ← draw env.now
    create_scheduled_timer step.id element_key
        (resolve_timer_schedule env.clock (some step.properties) now)

  -- The variable that the property names, or the property itself.
  unfoldable pub correlation_text : Variables → String → String
  correlation_text context name =
      if is_empty name
      then ""
      else elim (lookup name context) [ some v ↦ env.show_value v | none ↦ name ]

  -- A subscription for a step with a message.
  unfoldable pub subscribe : StepFields → ℕ → Nav (Unit {0})
  subscribe step element_key =
      if is_empty (text_at "message_ref" step.properties) then pure tt else do
        context ← get_context
        key ← draw env.snowflake
        id ← draw env.uuid
        instance_key ← asks (λ w. w.instance_.key)
        created_at ← draw env.now
        store (λ db. record db {
          subscriptions =
              create_message_subscription
                (record {
                  key = key;
                  id = id;
                  element_instance_key = element_key;
                  process_instance_key = instance_key;
                  element_id = step.id;
                  message_name = text_at "message_ref" step.properties;
                  correlation_key =
                      correlation_text context (text_at "correlation_key" step.properties);
                  state = SubscriptionState.open_;
                  created_at = created_at;
                })
                db.subscriptions;
        })

module _ (env : Env) (wf : WorkflowDefinition) where
  -- An action for the boundary event with this id, among the steps at the top.
  unfoldable pub at_boundary : (StepFields → Nav (Unit {0})) → Option StepFields → Nav (Unit {0})
  at_boundary action none = pure tt
  at_boundary action (some boundary) =
      if is_boundary_event boundary.type then action boundary else pure tt

  unfoldable pub for_boundaries : (StepFields → Nav (Unit {0})) → List String → Nav (Unit {0})
  for_boundaries action [] = pure tt
  for_boundaries action (ref ∷ refs) = do
    at_boundary action (find_top_step ref wf.steps)
    for_boundaries action refs

  unfoldable pub arrive : StepFields → ℕ → Nav (Unit {0})
  arrive step element_key = do
    if is_timer_catch step.type then schedule_timer env step element_key else pure tt
    for_boundaries (λ boundary. schedule_timer env boundary element_key) step.boundary_event_refs
    if waits_for_message step.type then subscribe env step element_key else pure tt
    for_boundaries (λ boundary. subscribe env boundary element_key) step.boundary_event_refs
