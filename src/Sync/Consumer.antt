-- ===== src/Sync/Consumer.antt =====
-- The loop that reads one partition of the log (consumeLoop, processMessageWithRetry and
-- processMessageOnce of
-- backend/services/sync-worker/internal/infrastructure/messaging/kafka_consumer.go). Kafka is a
-- parameter by its answers; a commit that succeeds makes the group go on after the message.
-- Shutdown, tracing and the statistics of each topic are left out.
use flow_go.Prelude.{
  ℕ, zero, suc, ◌+◌, String, Bool, List, [], ◌∷◌, Option, none, some, if◌then◌else◌,
}
use flow_go.Sync.Mirror.{DebeziumMessage, process_message}
use flow_go.Sync.Search.{Elastic}
use flow_go.Sync.Service.{SyncEnv, Incoming, process_event}

-- A message: an event, which has a type header, or a captured row of a table.
pub data Payload : Type 0 where
  no_value : Payload
  typed : Incoming → Payload
  captured : (table : String) → DebeziumMessage → Payload
  bad_json : (error : String) → Payload

pub record KafkaMessage : Type 0 where
  pub offset : ℕ
  pub payload : Payload

pub record Stats : Type 0 where
  pub processed : ℕ
  pub succeeded : ℕ
  pub failed : ℕ
  pub retried : ℕ
  pub dlq_published : ℕ

-- The clock at each attempt, whether the dead letter queue took the message, if there is one, and
-- whether the commit succeeded.
pub record Answers : Type 0 where
  pub clock : ℕ → ℕ
  pub dlq_accepts : Bool
  pub commit_accepts : Bool

module _ (env : SyncEnv) (es : Elastic) where
  -- `committed` is the offset that the group would go on from.
  pub record Consumer : Type 0 where
    pub store : es.Store
    pub committed : ℕ
    pub stats : Stats

  -- What processing came to: the last error, the store, and the retries.
  pub record Attempts : Type 0 where
    pub error : Option String
    pub left : es.Store
    pub retries : ℕ

  -- `processMessageOnce`.
  unfoldable pub process_message_once : ℕ → Payload → es.Store → Option String × es.Store
  process_message_once now no_value s = (none, s)
  process_message_once now (typed incoming) s = process_event env es now incoming s
  process_message_once now (captured table m) s = process_message env es table m s
  process_message_once now (bad_json error) s = (some error, s)

  abbrev attempt_after : Option String × es.Store → (es.Store → Attempts) → Attempts
  attempt_after (none, s) again = record { error = none; left = s; retries = 0 }
  attempt_after (some e, s) again =
      let rest = again s in
      record { error = rest.error; left = rest.left; retries = suc rest.retries }

  abbrev last_attempt : Option String × es.Store → Attempts
  last_attempt (e, s) = record { error = e; left = s; retries = 0 }

  -- `processMessageWithRetry`, with so many retries left.
  unfoldable pub process_with_retry : (ℕ → ℕ) → Payload → ℕ → ℕ → es.Store → Attempts
  process_with_retry clock payload zero k s =
      last_attempt (process_message_once (clock k) payload s)
  process_with_retry clock payload (suc n) k s =
      attempt_after (process_message_once (clock k) payload s)
        (process_with_retry clock payload n (suc k))

  unfoldable pub commit : Bool → ℕ → Consumer → Consumer
  commit accepts offset c = if accepts then record c { committed = suc offset } else c

  abbrev counted : Attempts → Consumer → Consumer
  counted a c = record c {
    store = a.left;
    stats = record c.stats {
      processed = suc c.stats.processed;
      retried = c.stats.retried + a.retries;
    };
  }

  abbrev one_succeeded : Consumer → Consumer
  one_succeeded c = record c { stats = record c.stats { succeeded = suc c.stats.succeeded } }

  abbrev one_failed : Consumer → Consumer
  one_failed c = record c { stats = record c.stats { failed = suc c.stats.failed } }

  abbrev one_dead : Consumer → Consumer
  one_dead c = record c { stats = record c.stats { dlq_published = suc c.stats.dlq_published } }

  -- After processing. A message that the dead letter queue does not take is not committed.
  unfoldable pub finish_message : Answers → ℕ → Option String → Consumer → Consumer
  finish_message answers offset none c = commit answers.commit_accepts offset (one_succeeded c)
  finish_message answers offset (some e) c =
      if answers.dlq_accepts
      then commit answers.commit_accepts offset (one_dead (one_failed c))
      else one_failed c

  abbrev process_value : ℕ → KafkaMessage → Answers → Consumer → Consumer
  process_value max_retries m answers c =
      let a = process_with_retry answers.clock m.payload max_retries 0 c.store in
      finish_message answers m.offset a.error (counted a c)

  abbrev pub consume_payload : ℕ → KafkaMessage → Payload → Answers → Consumer → Consumer
  consume_payload max_retries m no_value answers c = commit answers.commit_accepts m.offset c
  consume_payload max_retries m _ answers c = process_value max_retries m answers c

  -- One turn of `consumeLoop`, and the loop over the messages that are fetched.
  unfoldable pub consume : ℕ → KafkaMessage → Answers → Consumer → Consumer
  consume max_retries m answers c = consume_payload max_retries m m.payload answers c

  unfoldable pub consume_loop : ℕ → List (KafkaMessage × Answers) → Consumer → Consumer
  consume_loop max_retries [] c = c
  consume_loop max_retries (m ∷ ms) c = consume_loop max_retries ms (consume max_retries m.0 m.1 c)
