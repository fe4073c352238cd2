-- ===== src/Repository.antt =====
-- The command database (backend/services/workflow-command/internal/infrastructure/persistence/
-- gorm_repository.go): one list of rows for each table that is modelled. The children hold the
-- queries on each table.
pub mod Jobs
pub mod Messages
pub mod Instances
pub mod Timers
pub mod Incidents
pub mod Idempotency
pub mod Lease
use flow_go.Prelude.{List, [], Option, none}
use flow_go.Model.{
  ProcessInstance, ElementInstance, Variable, MessageSubscription, Job, Incident, Timer,
  IdempotencyRecord, OutboxMessage, RuntimeSchedulerLease,
}

pub record Db : Type 0 where
  pub jobs : List Job
  pub incidents : List Incident
  pub timers : List Timer
  pub process_instances : List ProcessInstance
  pub elements : List ElementInstance
  pub variables : List Variable
  pub subscriptions : List MessageSubscription
  pub idempotency : List IdempotencyRecord
  pub outbox : List OutboxMessage
  pub lease : Option RuntimeSchedulerLease

abbrev pub empty_db : Db
empty_db = record {
  jobs = [];
  incidents = [];
  timers = [];
  process_instances = [];
  elements = [];
  variables = [];
  subscriptions = [];
  idempotency = [];
  outbox = [];
  lease = none;
}
