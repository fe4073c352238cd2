-- ===== src/Examples.antt =====
-- Concrete rows and answers of the database, the publisher and the clock, for the tests in the
-- children.
mod Outbox
mod Jobs
mod Gateways
mod Ids
mod Decisions
mod Timers
mod Navigations
mod Documents
mod Partition
use flow_go.Prelude.{
  ℕ, zero, suc, String, ◌≡◌, refl, ap, Bool, true, false, List, [], ◌∷◌, Option, none, some, arith,
  eq_iff, ◌==◌, string_eq, if◌then◌else◌,
}
use flow_go.Prelude.Int.{pos}
use flow_go.Model.{JobState, Job, OutboxMessage, OutboxStatus}
use flow_go.Model.Event.{Event, event_type, job_activated}
use flow_go.Repository.{Db, empty_db}
use flow_go.Engine.Codec.{Codec, Decoded, MessageKind, kind_of, event, failure}
use flow_go.Engine.Metrics.{new_engine_metrics}
use flow_go.Engine.Outbox.{Calls}
use flow_go.Engine.Tx.{Engine, TxEnv, ok, pure}
use flow_go.Jobs.Interface.{Navigation}

abbrev pub mail_job : Job
mail_job = record {
  key = 7;
  id = "j";
  type = "mail";
  process_instance_key = 3;
  element_instance_key = 4;
  process_definition_key = 2;
  element_id = "send";
  worker = "";
  retries = pos 3;
  state = JobState.created;
  assignee = "";
  candidate_users = "";
  candidate_groups = "";
  lock_expiration_time = none;
  due_date = 5;
  breached_at = none;
  created_at = 1;
  updated_at = 1;
}

abbrev pub user_task : Job
user_task = record mail_job { key = 8; type = "artificialflow:userTask"; element_instance_key = 5 }

-- The row of a job that a worker holds until 15.
abbrev pub held_job : Job
held_job = record mail_job {
  worker = "w1";
  state = JobState.activated;
  lock_expiration_time = some 15;
  updated_at = 10;
}

abbrev pub db_of : List Job → Db
db_of jobs = record empty_db { jobs = jobs }

abbrev pub engine_of : List Job → Engine
engine_of jobs = record { db = db_of jobs; metrics = new_engine_metrics; sent = [] }

-- Ids in unary notation.
unary : ℕ → String
unary zero = ""
unary (suc n) = String.◌∷◌ "x" (unary n)

unfoldable pub id_of : ℕ → String
unfolding unary
id_of n = unary (suc n)

pub id_of-injective : (i j : ℕ) → id_of i ≡ id_of j → i ≡ j
unfolding id_of unary
id_of-injective zero zero h = refl
id_of-injective zero (suc j) h = cc h
id_of-injective (suc i) zero h = cc h
id_of-injective (suc i) (suc j) h = ap suc (id_of-injective i j (ground arith))

unfoldable pub marshal_activated : Event → Option (List ℕ)
marshal_activated (job_activated key worker until) =
    if worker == "w1" then some (key ∷ until ∷ []) else none
marshal_activated _ = none

unfoldable pub unmarshal_activated : MessageKind → List ℕ → Decoded
unmarshal_activated kind (key ∷ until ∷ []) = event (job_activated key "w1" until)
unmarshal_activated kind _ = failure "bad payload"

pub activated_reads_back :
    (e : Event) (bytes : List ℕ)
    → marshal_activated e ≡ some bytes
    → unmarshal_activated (kind_of e) bytes ≡ event e
unfolding marshal_activated unmarshal_activated
activated_reads_back (job_activated key worker until) bytes h = ground (arith, eq_iff worker "w1")
activated_reads_back _ bytes h = cc h

-- A codec for the activations of the worker w1.
abbrev pub w1_codec : Codec
w1_codec = record {
  marshal = marshal_activated;
  unmarshal = unmarshal_activated;
  reads_back = activated_reads_back;
}

-- A publisher that is down.
abbrev pub down : ℕ → Calls
down i = record {
  claimed_at = 10;
  claim_error = false;
  publish_error = some "down";
  published_at = 11;
  mark_error = none;
  failed_at = 12;
  record_error = false;
}

abbrev pub env_one : TxEnv
env_one = record {
  uuids = id_of;
  times = λ i. 10;
  commit_error = false;
  flush_calls = down;
  relay_now = 10;
  count_error = false;
  list_error = false;
  relay_calls = down;
}

-- A navigation engine whose instances end with their only task.
abbrev pub idle_navigation : Navigation
idle_navigation = record {
  Value = ℕ;
  merge_variables = λ i vs s. ok (s.db.variables, []);
  complete_execution = λ i e. pure tt;
  publish_escalation = λ code job key. pure tt;
}

abbrev pub stored_message : OutboxMessage
stored_message = record {
  id = "m";
  event_type = "JobActivated";
  payload = 7 ∷ 15 ∷ [];
  status = OutboxStatus.pending;
  attempts = 0;
  last_error = "";
  next_attempt = none;
  processing_started_at = none;
  created_at = 1;
  published_at = none;
}
