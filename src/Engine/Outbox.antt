-- ===== src/Engine/Outbox.antt =====
-- What the outbox records about each attempt to publish (backend/services/workflow-command/
-- internal/application/engine.go): OutboxMaxAttempts, outboxRetryDelay,
-- recordOutboxPublishSuccess, recordOutboxPublishFailure.
-- What the database, the publisher and the clock answer is a `Calls` record for each message.
pub mod Delay
use Prim.Native.String.{len, slice}
use flow_go.Prelude.{
  ℕ, ◌+◌, ◌-◌, ◌*◌, ◌/◌, ◌^◌, String, Bool, List, Option, ltb, leb, ◌==◌, ◌||◌, nat_eq,
  if◌then◌else◌,
}
use flow_go.Prelude.Int.{ℤ, pos, leb_ℤ, pos_part, sub_ℕ}
use flow_go.Prelude.Text.{is_empty}
use flow_go.Model.{OutboxMessage}
use flow_go.Model.Event.{Event}
use flow_go.Repository.Messages.{
  second, update_message, publish_failed_columns, terminal_failed_columns,
}
use flow_go.Engine.Metrics.{
  EngineMetrics, inc_outbox_publish_success, inc_outbox_publish_failure, set_outbox_publish_lag_sec,
}

abbrev pub outbox_base_retry_delay : ℕ
outbox_base_retry_delay = second

abbrev pub outbox_max_retry_delay : ℕ
outbox_max_retry_delay = 5 * 60 * second

abbrev outbox_max_error_length : ℕ
outbox_max_error_length = 2048

abbrev default_outbox_max_attempts : ℕ
default_outbox_max_attempts = 10

-- `OutboxMaxAttempts`: a configured number of 0 or less means the default.
unfoldable pub max_attempts_or_default : ℤ → ℕ
max_attempts_or_default configured =
    if leb_ℤ configured (pos 0) then default_outbox_max_attempts else pos_part configured

unfoldable pub outbox_retry_delay : ℕ → ℕ
outbox_retry_delay attempt =
    let shift = if ltb 8 (attempt - 1) then 8 else attempt - 1 in
    let delay = outbox_base_retry_delay * 2 ^ shift in
    if leb attempt 1
    then outbox_base_retry_delay
    else if ltb outbox_max_retry_delay delay
    then outbox_max_retry_delay
    else delay

-- What the engine holds while it works on the outbox: the rows, its counters, and the messages
-- that the publisher has accepted, in order.
pub record Relay : Type 0 where
  pub rows : List OutboxMessage
  pub metrics : EngineMetrics
  pub sent : List (String × Event)

-- The answers to the calls that one message makes. `none` is a call with no error.
pub record Calls : Type 0 where
  pub claimed_at : ℕ
  pub claim_error : Bool
  pub publish_error : Option String
  pub published_at : ℕ
  pub mark_error : Option String
  pub failed_at : ℕ
  pub record_error : Bool

abbrev lag_sec : ℕ → ℕ → ℤ
lag_sec created_at published_at =
    if leb created_at published_at
    then pos ((published_at - created_at) / second)
    else sub_ℕ 0 ((created_at - published_at) / second)

unfoldable pub record_outbox_publish_success : ℕ → ℕ → EngineMetrics → EngineMetrics
unfolding inc_outbox_publish_success set_outbox_publish_lag_sec
record_outbox_publish_success created_at published_at metrics =
    let counted = inc_outbox_publish_success metrics in
    if created_at == 0
    then counted
    else set_outbox_publish_lag_sec (lag_sec created_at published_at) counted

abbrev truncate : String → String
truncate message =
    if ltb outbox_max_error_length (len message)
    then slice message 0 outbox_max_error_length
    else message

-- The row operation of `recordOutboxPublishFailure`: terminal at the last attempt, and otherwise
-- pending again after the delay.
unfoldable pub failure_columns : ℕ → ℕ → String → ℕ → OutboxMessage → OutboxMessage
unfolding terminal_failed_columns publish_failed_columns outbox_retry_delay
failure_columns max_attempts attempt message now m =
    if leb max_attempts attempt
    then terminal_failed_columns (truncate message) now m
    else publish_failed_columns (truncate message) (now + outbox_retry_delay attempt) m

unfoldable pub record_outbox_publish_failure : ℕ → String → ℕ → String → Calls → Relay → Relay
unfolding failure_columns inc_outbox_publish_failure
record_outbox_publish_failure max_attempts id attempt message calls s =
    let counted = record s { metrics = inc_outbox_publish_failure s.metrics } in
    if is_empty id || calls.record_error then counted else record counted {
      rows =
          update_message id (failure_columns max_attempts attempt message calls.failed_at) s.rows;
    }
