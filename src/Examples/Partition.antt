-- ===== src/Examples/Partition.antt =====
-- A partition with a message that cannot be read, while there is no dead letter queue, and the
-- event behind it.
use flow_go.Prelude.{◌<◌, ◌≡◌, true, false, [], ◌∷◌, refl, arith}
use flow_go.Examples.Documents.{texts, memory, empty_memory, life}
use flow_go.Sync.Consumer.{
  typed, bad_json, KafkaMessage, Answers, Consumer, process_message_once, process_with_retry,
  consume, consume_loop,
}
use flow_go.Sync.Order.{started}
use flow_go.Sync.Service.{event}
use flow_go.Sync.Skipping.{commits_one, consume_loop-skips}

abbrev no_queue : Answers
no_queue = record { clock = λ k. 1; dlq_accepts = false; commit_accepts = true }

abbrev garbled : KafkaMessage
garbled = record { offset = 7; payload = bad_json "unexpected end" }

abbrev behind : KafkaMessage
behind = record { offset = 8; payload = typed (event (started life)) }

abbrev worker : Consumer texts memory
worker = record {
  store = empty_memory;
  committed = 7;
  stats = record { processed = 0; succeeded = 0; failed = 0; retried = 0; dlq_published = 0 };
}

consume_loop-skips_example :
    (commits_one texts memory 1
          ((behind, no_queue) ∷ [])
          (consume texts memory 1 garbled no_queue worker)
        ≡ true
      → 7
        < (consume_loop texts memory 1
            ((garbled, no_queue) ∷ (behind, no_queue) ∷ [])
            worker).committed)
    × (commits_one texts memory 1
            ((behind, no_queue) ∷ [])
            (consume texts memory 1 garbled no_queue worker)
          ≡ false
        → (consume_loop texts memory 1
            ((garbled, no_queue) ∷ (behind, no_queue) ∷ [])
            worker).committed
          ≡ 7)
unfolding process_with_retry process_message_once
consume_loop-skips_example =
    consume_loop-skips texts memory 1 garbled no_queue ((behind, no_queue) ∷ []) worker
      "unexpected end" (λ h. cc h) refl refl (omega arith, tt) (omega arith)
