-- ===== src/Engine/Relay.antt =====
-- The relay of backend/services/workflow-command/internal/application/engine.go:
-- flushPendingOutbox (RunOutboxRelayCycle) and flushBufferedEvents.
pub mod Accounting
pub mod Claims
pub mod Final
pub mod Preserves
pub mod Delivery
use flow_go.Prelude.{
  ℕ, suc, ◌+◌, String, Bool, true, false, List, [], ◌∷◌, ◌++◌, Option, none, some, if◌then◌else◌,
}
use flow_go.Prelude.Int.{ℤ, pos}
use flow_go.Prelude.Text.{is_empty}
use flow_go.Model.{OutboxMessage}
use flow_go.Model.Event.{Event}
use flow_go.Repository.Messages.{
  count_pending_outbox_messages, list_pending_outbox_messages, update_message, claim_outbox_message,
  published_columns,
}
use flow_go.Engine.Codec.{Codec, Decoded, event, failure, unmarshal_outbox_event}
use flow_go.Engine.Metrics.{set_outbox_pending}
use flow_go.Engine.Outbox.{
  Relay, Calls, record_outbox_publish_success, record_outbox_publish_failure,
}

pub record OutboxRelayResult : Type 0 where
  pub pending : ℕ
  pub claimed : ℕ
  pub published : ℕ
  pub failed : ℕ

abbrev pub no_result : OutboxRelayResult
no_result = record { pending = 0; claimed = 0; published = 0; failed = 0 }

abbrev pub count_failed : OutboxRelayResult → OutboxRelayResult
count_failed r = record r { failed = r.failed + 1 }

module _ (codec : Codec) (max_attempts : ℕ) where
  -- `result.Failed++`, the log line and `recordOutboxPublishFailure`.
  unfoldable pub give_up :
      OutboxMessage → Calls → String → Relay → OutboxRelayResult → Relay × OutboxRelayResult
  unfolding record_outbox_publish_failure
  give_up msg calls reason s r = (
    record_outbox_publish_failure max_attempts msg.id (msg.attempts + 1) reason calls s,
    count_failed r,
  )

  unfoldable pub mark_published :
      Option String → OutboxMessage → Calls → Relay → OutboxRelayResult → Relay × OutboxRelayResult
  unfolding give_up record_outbox_publish_success published_columns
  mark_published (some reason) msg calls s r = give_up msg calls reason s r
  mark_published none msg calls s r = (
    record s {
      rows = update_message msg.id (published_columns calls.published_at) s.rows;
      metrics = record_outbox_publish_success msg.created_at calls.published_at s.metrics;
    },
    record r { published = r.published + 1 },
  )

  unfoldable pub publish :
      Option String
      → Event
      → OutboxMessage
      → Calls
      → Relay
      → OutboxRelayResult
      → Relay × OutboxRelayResult
  unfolding mark_published
  publish (some reason) e msg calls s r = give_up msg calls reason s r
  publish none e msg calls s r =
      mark_published calls.mark_error msg calls (record s { sent = s.sent ++ (msg.id, e) ∷ [] }) r

  unfoldable pub deliver :
      Decoded → OutboxMessage → Calls → Relay → OutboxRelayResult → Relay × OutboxRelayResult
  unfolding publish
  deliver (failure reason) msg calls s r = give_up msg calls reason s r
  deliver (event e) msg calls s r = publish calls.publish_error e msg calls s r

  unfoldable pub after_claim :
      List OutboxMessage × Bool
      → OutboxMessage
      → Calls
      → Relay
      → OutboxRelayResult
      → Relay × OutboxRelayResult
  unfolding deliver
  after_claim (rows, false) msg calls s r = (record s { rows = rows }, r)
  after_claim (rows, true) msg calls s r =
      deliver (unmarshal_outbox_event codec msg.event_type msg.payload) msg calls
        (record s { rows = rows }) (record r { claimed = r.claimed + 1 })

  -- One round of the loop of `flushPendingOutbox`.
  unfoldable pub relay_message :
      OutboxMessage → Calls → Relay → OutboxRelayResult → Relay × OutboxRelayResult
  unfolding after_claim
  relay_message msg calls s r =
      if calls.claim_error
      then (s, count_failed r)
      else after_claim (claim_outbox_message msg.id calls.claimed_at s.rows) msg calls s r

  -- `calls i` answers the calls of the i-th message.
  unfoldable pub relay_messages :
      List OutboxMessage → (ℕ → Calls) → Relay → OutboxRelayResult → Relay × OutboxRelayResult
  relay_messages [] calls s r = (s, r)
  relay_messages (msg ∷ msgs) calls s r =
      let (s', r') = relay_message msg (calls 0) s r in
      relay_messages msgs (λ i. calls (suc i)) s' r'

  -- A cycle whose count and listing succeed. (Where either fails, the cycle returns its error and
  -- changes no row.)
  unfoldable pub flush_pending_outbox : ℕ → ℤ → (ℕ → Calls) → Relay → Relay × OutboxRelayResult
  unfolding relay_messages
  flush_pending_outbox now limit calls s =
      let pending = count_pending_outbox_messages now s.rows in
      relay_messages (list_pending_outbox_messages now limit s.rows) calls
        (record s { metrics = set_outbox_pending (pos pending) s.metrics })
        (record no_result { pending = pending })

module _ (max_attempts : ℕ) where
  -- One round of `flushBufferedEvents`: the event is sent without a claim, and a failure counts as
  -- attempt 1.
  unfoldable pub flush_mark : Option String → String → ℕ → Calls → Relay → Relay
  unfolding record_outbox_publish_failure record_outbox_publish_success published_columns
  flush_mark (some reason) id created_at calls s =
      record_outbox_publish_failure max_attempts id 1 reason calls s
  flush_mark none id created_at calls s = record s {
    rows = update_message id (published_columns calls.published_at) s.rows;
    metrics = record_outbox_publish_success created_at calls.published_at s.metrics;
  }

  unfoldable pub flush_publish : Option String → String → ℕ → Event → Calls → Relay → Relay
  unfolding flush_mark
  flush_publish (some reason) id created_at e calls s =
      record_outbox_publish_failure max_attempts id 1 reason calls s
  flush_publish none id created_at e calls s =
      let s' = record s { sent = s.sent ++ (id, e) ∷ [] } in
      if is_empty id then s' else flush_mark calls.mark_error id created_at calls s'
