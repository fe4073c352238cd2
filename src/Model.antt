-- ===== src/Model.antt =====
-- The rows of the command database (backend/libs/model/engine_types.go). Keys are the numbers that
-- the Snowflake generator draws, so they are natural numbers and 0 stands for "no key". An instant
-- is its nanoseconds after Go's zero time, which is 0. A nullable column is an `Option`.
pub mod Event
pub mod Value
pub mod Workflow
use flow_go.Prelude.{ℕ, String, Bool, true, false, List, Option}
use flow_go.Prelude.Int.{ℤ}

pub data JobState : Type 0 where
  created activated completed failed : JobState

pub record Job : Type 0 where
  pub key : ℕ
  pub id : String
  pub type : String
  pub process_instance_key : ℕ
  pub element_instance_key : ℕ
  pub process_definition_key : ℕ
  pub element_id : String
  pub worker : String
  pub retries : ℤ
  pub state : JobState
  pub assignee : String
  pub candidate_users : String
  pub candidate_groups : String
  pub lock_expiration_time : Option ℕ
  pub due_date : ℕ
  pub breached_at : Option ℕ
  pub created_at : ℕ
  pub updated_at : ℕ

pub data InstanceState : Type 0 where
  active completed canceled : InstanceState

pub record ProcessInstance : Type 0 where
  pub key : ℕ
  pub id : String
  pub process_definition_key : ℕ
  pub version : ℤ
  pub parent_process_instance_key : ℕ
  pub parent_element_instance_key : ℕ
  pub state : InstanceState
  pub created_at : ℕ
  pub end_time : ℕ

pub data ElementState : Type 0 where
  activating activated completing completed terminated : ElementState

pub record ElementInstance : Type 0 where
  pub key : ℕ
  pub id : String
  pub process_instance_key : ℕ
  pub process_definition_key : ℕ
  pub element_id : String
  pub bpmn_element_type : String
  pub flow_scope_key : ℕ
  pub state : ElementState
  pub created_at : ℕ
  pub end_time : ℕ

-- The value is JSON text.
pub record Variable : Type 0 where
  pub scope_key : ℕ
  pub process_instance_key : ℕ
  pub name : String
  pub value : String
  pub created_at : ℕ
  pub updated_at : ℕ

pub data SubscriptionState : Type 0 where
  open_ correlated closed : SubscriptionState

pub record MessageSubscription : Type 0 where
  pub key : ℕ
  pub id : String
  pub element_instance_key : ℕ
  pub process_instance_key : ℕ
  pub element_id : String
  pub message_name : String
  pub correlation_key : String
  pub state : SubscriptionState
  pub created_at : ℕ

pub data IncidentState : Type 0 where
  created resolved : IncidentState

pub record Incident : Type 0 where
  pub key : ℕ
  pub id : String
  pub process_instance_key : ℕ
  pub element_instance_key : ℕ
  pub job_key : ℕ
  pub error_type : String
  pub error_message : String
  pub state : IncidentState
  pub created_at : ℕ

pub data TimerState : Type 0 where
  created triggered canceled : TimerState

pub record Timer : Type 0 where
  pub key : ℕ
  pub id : String
  pub element_instance_key : ℕ
  pub process_instance_key : ℕ
  pub element_id : String
  pub due_date : ℕ
  pub state : TimerState
  pub repeat_count : ℤ
  pub created_at : ℕ

pub record IdempotencyRecord : Type 0 where
  pub key : String
  pub operation : String
  pub created_at : ℕ

pub data OutboxStatus : Type 0 where
  pending processing published failed : OutboxStatus

pub record OutboxMessage : Type 0 where
  pub id : String
  pub event_type : String
  pub payload : List ℕ
  pub status : OutboxStatus
  pub attempts : ℕ
  pub last_error : String
  pub next_attempt : Option ℕ
  pub processing_started_at : Option ℕ
  pub created_at : ℕ
  pub published_at : Option ℕ

pub record RuntimeSchedulerLease : Type 0 where
  pub holder : String
  pub expires_at : ℕ
  pub updated_at : ℕ

abbrev pub is_created : JobState → Bool
is_created JobState.created = true
is_created _ = false

abbrev pub is_activated : JobState → Bool
is_activated JobState.activated = true
is_activated _ = false

abbrev pub is_completed : JobState → Bool
is_completed JobState.completed = true
is_completed _ = false

abbrev pub is_failed : JobState → Bool
is_failed JobState.failed = true
is_failed _ = false
