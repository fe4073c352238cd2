-- ===== src/Jobs/Idempotency.antt =====
-- The idempotency keys of commands: HasProcessedIdempotencyKey and RecordIdempotencyKey of jobs.go,
-- and RunIdempotencyCleanup of backend/services/workflow-command/internal/application/engine.go.
use flow_go.Prelude.{
  ℕ, ◌-◌, String, ◌≡◌, Bool, true, false, ◌&&◌, ◌||◌, List, arith, eq_iff, ◌==◌, string_eq,
  if◌then◌else◌,
}
use flow_go.Prelude.Int.{ℤ, pos, leb_ℤ, pos_part}
use flow_go.Prelude.Text.{is_empty, trim_space}
use flow_go.Model.{IdempotencyRecord}
use flow_go.Repository.Idempotency.{
  has_keys, get_idempotency_record, is_found, create_idempotency_record,
  delete_idempotency_records_before, found-create,
}
use flow_go.Engine.Metrics.{EngineMetrics, inc_idempotency_hit, inc_idempotency_miss}

-- What counts as no key: then nothing is looked up and nothing is stored.
unfoldable pub is_blank : String → String → Bool
unfolding trim_space
is_blank key operation = is_empty (trim_space key) || is_empty (trim_space operation)

unfoldable pub stored : String → String → List IdempotencyRecord → Bool
unfolding get_idempotency_record trim_space
stored key operation rows =
    is_found (get_idempotency_record (trim_space key) (trim_space operation) rows)

-- The answer, and the counters after it.
unfoldable pub has_processed_idempotency_key :
    String → String → List IdempotencyRecord → EngineMetrics → Bool × EngineMetrics
unfolding is_blank stored inc_idempotency_hit inc_idempotency_miss
has_processed_idempotency_key key operation rows metrics =
    if is_blank key operation
    then (false, metrics)
    else if stored key operation rows
    then (true, inc_idempotency_hit metrics)
    else (false, inc_idempotency_miss metrics)

new_record : String → String → ℕ → IdempotencyRecord
unfolding trim_space
new_record key operation now = record {
  key = trim_space key;
  operation = trim_space operation;
  created_at = now;
}

unfoldable pub record_idempotency_key :
    String → String → ℕ → List IdempotencyRecord → List IdempotencyRecord
unfolding is_blank create_idempotency_record new_record
record_idempotency_key key operation now rows =
    if is_blank key operation
    then rows
    else create_idempotency_record (new_record key operation now) rows

abbrev default_idempotency_cleanup_batch : ℤ
default_idempotency_cleanup_batch = pos 500

-- `now - ttl`, with instants before Go's zero time counted as it.
unfoldable pub run_idempotency_cleanup :
    ℤ → ℤ → ℕ → List IdempotencyRecord → List IdempotencyRecord × ℕ
unfolding delete_idempotency_records_before
run_idempotency_cleanup ttl limit now rows =
    if leb_ℤ ttl (pos 0)
    then (rows, 0)
    else delete_idempotency_records_before (now - pos_part ttl)
        (if leb_ℤ limit (pos 0) then default_idempotency_cleanup_batch else limit) rows

-- Whether two commands carry the same key and the same operation, blanks around them aside.
unfoldable pub same_command : String → String → String → String → Bool
unfolding trim_space
same_command key operation key' operation' =
    trim_space key == trim_space key' && trim_space operation == trim_space operation'

-- Recording a key makes that command processed, unless its key or its operation is blank, and
-- leaves the answer for every other command as it was.
pub has_processed-record :
    (key operation key' operation' : String) (now : ℕ) (rows : List IdempotencyRecord)
    (metrics : EngineMetrics)
    → (has_processed_idempotency_key key' operation'
        (record_idempotency_key key operation now rows)
        metrics).0
      ≡ (if is_blank key' operation'
          then false
          else same_command key operation key' operation'
            || (has_processed_idempotency_key key' operation' rows metrics).0)
unfolding has_processed_idempotency_key record_idempotency_key same_command stored is_blank has_keys
    new_record
has_processed-record key operation key' operation' now rows metrics = ground (
  arith,
  eq_iff (trim_space key) (trim_space key'),
  eq_iff (trim_space operation) (trim_space operation'),
  found-create (trim_space key') (trim_space operation') (new_record key operation now) rows,
)
