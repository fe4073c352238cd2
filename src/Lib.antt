-- ===== src/Lib.antt =====
-- A model of the workflow engine of this repository, a BPMN engine in Go, and proofs about it.
--
-- The engine (backend/services/workflow-command) keeps its state in a command database and
-- publishes domain events, from which a worker builds the documents of a read side. Its operations
-- run in transactions. The events of a transaction are written to an outbox table with the rest of
-- it, and a relay sends them. External workers activate, complete and fail jobs under locks; people
-- claim user tasks; gateways split and join the tokens of an instance.
--
-- Which file models which part:
--   Model           the rows of backend/libs/model/engine_types.go, one record for each table
--   Model/Event     the published events, with the type names that go with them
--   Model/Workflow  steps, transitions and executions of backend/libs/model/types.go
--   Repository      the tables (infrastructure/persistence/gorm_repository.go of the service): Db is
--                   one list of rows for each table; Jobs, Messages (the outbox), Idempotency,
--                   Lease, Instances (also elements, variables and subscriptions), Timers and
--                   Incidents hold the queries, named as there: get_job is GetJob
--   Engine/Metrics  internal/application/engine_metrics.go
--   Engine/Outbox   retry delays, and what is recorded about an attempt to publish (engine.go)
--   Engine/Relay    flushPendingOutbox, also called RunOutboxRelayCycle, and one round of
--                   flushBufferedEvents
--   Engine/Codec    unmarshalOutboxEvent
--   Engine/Tx       withTx, transactionalEventPublisher, persistBufferedEventsToOutbox
--   Jobs            internal/application/jobs.go: activate_jobs_once, complete_job, fail_job,
--                   extend_job_lock, retry_job; Jobs/UserTasks and Jobs/Idempotency the rest of it
--   Jobs/Commands   the commands of jobs.go about one job, as one type
--   Jobs/Sla        CheckSLAs of internal/application/events.go
--   Jobs/Interface  what the job operations use of the navigation engine, as a record of operations
--                   without laws
--   Gateway         internal/application/gateway_logic.go; Gateway/Reach is canReach and
--                   Gateway/Conditions the text of conditions
--   Timers          internal/application/timer_schedule.go, and the timer table when a timer fires or
--                   is cancelled (events.go)
--   Navigation      how tokens move through one instance; World is the state and its monad, Exit,
--                   Enter, Arrival, Tokens and Proceed are proceedToken of navigation.go, Engine its
--                   autoAdvance with the table of executors, Executors step_executors.go, Boundary
--                   and Triggers what events do inside an instance (events.go, tier2_events.go,
--                   compensation.go), Variables mapping.go and persistVariables; Steps is a machine of
--                   small steps, and Follows shows that every operation runs on it
--   Sync            the read side, backend/services/sync-worker/internal/application/service.go:
--                   Search is the search store with backend/libs/elasticsearch/repository.go, Service
--                   is ProcessEvent, Mirror is ProcessMessage with denormalizeVariable, and
--                   Consumer is the loop of infrastructure/messaging/kafka_consumer.go of the worker
--   Dmn             backend/libs/dmn/table.go
--   Snowflake       backend/libs/id/id.go
--   Prelude         what the modules share: Boolean tests, lists, signed numbers, maps, text, sorting
--   Examples        concrete runs
--
-- How state is represented. Keys are natural numbers, instants are nanoseconds after Go's zero
-- time, and numbers whose sign the code tests are integers. An operation inside a transaction is an
-- action of the monad Tx: it takes the tables and the events buffered so far, and returns an error
-- or the new ones. A failing call of the database inside a transaction is an error of the action,
-- which rolls everything back, and is not modelled call by call. After a commit there is nothing to
-- roll back, so there each call of the database, the publisher and the clock has its own answer,
-- from a record Calls for each message. The engine between transactions is the tables, the counters
-- and the list of the messages that the publisher accepted. A publisher is always set. A navigation
-- works on one instance in memory as well: its state also holds the instance and a counter of the
-- answers that the surroundings gave (ids, keys, times), and what it changed stays when it fails.
--
-- Parameters, for code that is not of this repository: Codec for protocol buffers, with the law
-- that what was marshalled is read back into a message of the same kind; the ids that the UUID package draws; the evaluation of
-- JavaScript conditions and scripts; Go's readers of durations and instants; JSON; what a value
-- prints as and converts to. The search store of the read side is the record Elastic, and Healthy is what
-- Elasticsearch documents of requests that it answers; the scripts are named by what they do. Kafka
-- is its answers: whether a commit and the dead letter queue succeed.
--
-- Where modelled code calls code of this repository that is not modelled with it, the called code
-- is a parameter too, and nothing is assumed of it. The job operations take the navigation as the
-- record of Jobs/Interface, and their theorems are about the session that they hand to it. A
-- navigation takes what other instances do with an event that it publishes (Publishing), the
-- notification of the parent of a called process, and, in Services, the lookup of definitions, the
-- start of a called process, the reading of an instance, the handlers that are registered in the
-- process and the evaluation of decisions. Theorems about what a whole navigation leaves tell the
-- navigation's own steps from the runs of that code (Navigation/Follows/Calls).
--
-- Bounds and fuel. The search of canReach takes a step from its queue on each unit of fuel, and
-- gets one more than there are transitions: a step other than the first enters the queue as a
-- target that was not visited. The waiting loop of the Snowflake generator ends at the first
-- reading of the clock that is later than the last id, so fuel beyond that reading is enough. Ids
-- are numbers of 64 bits. The counters of the engine are far below 2^63. The functions of a
-- navigation call one another, and a process may loop for ever; each unit of the fuel of moves_on
-- is one level of calls, and a run without fuel ends with an error of its own that nothing catches.
-- Theorems about navigations hold on any fuel.
--
-- Simplified: error texts are constructors but in Sync; a long error message is cut at a character,
-- where Go cuts at a byte; rows that a query sorts by a column keep the table's order where the
-- column is equal; an instance's and an execution's id in a user task call is its key, text that is
-- no number being an error before; conditions are read by characters. A map that a navigation
-- ranges over is a list in some order. In a navigation, calls of the database and the buffering of
-- an event succeed.
--
-- Not modelled: firing timers and delivering signals, messages and escalations to instances, the
-- start and loading of instances, deployment, the BPMN parser, the HTTP and gRPC interfaces, the
-- publishers, authentication, the NATS consumer, the query service, the worker library and
-- connectors.
pub mod Prelude
pub mod Model
pub mod Repository
pub mod Engine
pub mod Jobs
pub mod Gateway
pub mod Dmn
pub mod Timers
pub mod Navigation
pub mod Sync
pub mod Snowflake
pub mod Examples
