-- ===== src/Model/Event.antt =====
-- The domain events that the engine publishes, with the fields that the engine fills in
-- (the messages of backend/api/v1/go/events.pb.go as the calls of `Publish` build them).
use flow_go.Prelude.{ℕ, String}
use flow_go.Prelude.Int.{ℤ}

pub data Event : Type 0 where
  process_instance_created :
      (key : ℕ) (id : String) (process_definition_key : ℕ) (version : ℤ) (bpmn_process_id : String)
      (created_at : ℕ)
      → Event
  element_instance_activated :
      (key : ℕ) (id : String) (process_instance_key : ℕ) (process_definition_key : ℕ)
      (element_id : String) (bpmn_element_type : String) (flow_scope_key : ℕ) (created_at : ℕ)
      → Event
  variable_updated :
      (name : String) (value : String) (process_instance_key : ℕ) (scope_key : ℕ) (updated_at : ℕ)
      → Event
  element_instance_completed :
      (key : ℕ) (process_instance_key : ℕ) (element_id : String) (end_time : ℕ) → Event
  process_instance_completed : (key : ℕ) (process_definition_key : ℕ) (end_time : ℕ) → Event
  job_created :
      (key : ℕ) (id : String) (type : String) (process_instance_key : ℕ) (element_instance_key : ℕ)
      (process_definition_key : ℕ) (element_id : String) (created_at : ℕ)
      → Event
  job_activated : (key : ℕ) (worker : String) (lock_expiration_time : ℕ) → Event
  job_completed : (key : ℕ) (worker : String) (updated_at : ℕ) → Event
  job_failed :
      (key : ℕ) (worker : String) (retries : ℤ) (error_message : String) (updated_at : ℕ) → Event

-- The type name that accompanies each event in a call of `Publish`.
unfoldable pub event_type : Event → String
event_type (Event.process_instance_created _ _ _ _ _ _) = "ProcessInstanceCreated"
event_type (Event.element_instance_activated _ _ _ _ _ _ _ _) = "ElementInstanceActivated"
event_type (Event.variable_updated _ _ _ _ _) = "VariableUpdated"
event_type (Event.element_instance_completed _ _ _ _) = "ElementInstanceCompleted"
event_type (Event.process_instance_completed _ _ _) = "ProcessInstanceCompleted"
event_type (Event.job_created _ _ _ _ _ _ _ _) = "JobCreated"
event_type (Event.job_activated _ _ _) = "JobActivated"
event_type (Event.job_completed _ _ _) = "JobCompleted"
event_type (Event.job_failed _ _ _ _ _) = "JobFailed"
