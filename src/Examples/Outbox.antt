-- ===== src/Examples/Outbox.antt =====
-- Runs of the transactions and of the outbox.
use flow_go.Prelude.{
  ◌+◌, ◌*◌, ◌<◌, ◌≤◌, ◌≡◌, refl, true, false, List, [], ◌∷◌, some, arith, length, filter,
}
use flow_go.Prelude.Sorting.{order_by}
use flow_go.Prelude.Int.{pos}
use flow_go.Model.{Job, OutboxMessage, OutboxStatus}
use flow_go.Model.Event.{event_type, job_activated, job_completed}
use flow_go.Repository.Jobs.{update_columns}
use flow_go.Repository.Messages.{
  second, find_message, outbox_processing_lease, claim_outbox_message,
  count_pending_outbox_messages, list_pending_outbox_messages,
}
use flow_go.Engine.Codec.{kind_of, unmarshal_outbox_event, unmarshal_outbox_event-marshal, event}
use flow_go.Engine.Metrics.{new_engine_metrics}
use flow_go.Engine.Outbox.{
  Relay, outbox_retry_delay, outbox_base_retry_delay, outbox_max_retry_delay,
}
use flow_go.Engine.Outbox.Delay.{outbox_retry_delay_bounds}
use flow_go.Engine.Relay.{flush_pending_outbox}
use flow_go.Engine.Relay.Accounting.{claim_errors, flush_pending_outbox_counts}
use flow_go.Engine.Relay.Claims.{claim_exclusive}
use flow_go.Engine.Relay.Final.{flush_pending_outbox_keeps_final}
use flow_go.Engine.Tx.{Session, Tx, with_tx, ok}
use flow_go.Engine.Tx.Stored.{AllStored}
use flow_go.Engine.Tx.Outbox.{with_tx_stores, with_tx-IsSound, IsSound, start}
use flow_go.Jobs.{activate_jobs_once}
use flow_go.Examples.{
  mail_job, held_job, db_of, engine_of, id_of, id_of-injective, marshal_activated, w1_codec, down,
  env_one, stored_message,
}

abbrev activate : Tx (List Job)
activate = activate_jobs_once "mail" "w1" (pos 5) (pos 5) 10 10

abbrev activated : Session
activated = record { db = db_of (held_job ∷ []); events = job_activated 7 "w1" 15 ∷ [] }

activate_runs : activate (start (engine_of (mail_job ∷ []))) ≡ ok (held_job ∷ [], activated)
unfolding activate_jobs_once order_by filter update_columns
activate_runs = refl

commit_runs :
    (with_tx w1_codec 10 env_one activate (engine_of (mail_job ∷ []))).0 ≡ ok (held_job ∷ [])
unfolding activate_jobs_once with_tx marshal_activated order_by filter
commit_runs = refl

with_tx_stores_example :
    AllStored w1_codec id_of activated.events
      (with_tx w1_codec 10 env_one activate (engine_of (mail_job ∷ []))).1.db.outbox
unfolding find_message
with_tx_stores_example =
    with_tx_stores w1_codec 10 env_one activate (engine_of (mail_job ∷ [])) (held_job ∷ [])
      (held_job ∷ []) activated activate_runs commit_runs (λ i. refl) id_of-injective

no_message : IsSound (engine_of (mail_job ∷ []))
unfolding find_message
no_message = record { at = λ j m f p. cc f }

with_tx-IsSound_example :
    IsSound (with_tx w1_codec 10 env_one activate (engine_of (mail_job ∷ []))).1
with_tx-IsSound_example =
    with_tx-IsSound w1_codec 10 env_one activate (engine_of (mail_job ∷ []))
      (λ a s h. cc (activate_runs, h)) no_message

can_claim_message : (claim_outbox_message "m" 10 (stored_message ∷ [])).1 ≡ true
unfolding claim_outbox_message
can_claim_message = refl

claim_exclusive_example :
    (99 < 10 + outbox_processing_lease
      → claim_outbox_message "m" 99 (claim_outbox_message "m" 10 (stored_message ∷ [])).0
        ≡ ((claim_outbox_message "m" 10 (stored_message ∷ [])).0, false))
    × (10 + outbox_processing_lease ≤ 99
        → (claim_outbox_message "m" 99 (claim_outbox_message "m" 10 (stored_message ∷ [])).0).1
          ≡ true)
claim_exclusive_example = claim_exclusive "m" 10 99 (stored_message ∷ []) can_claim_message

abbrev finished_message : OutboxMessage
finished_message = record stored_message { status = OutboxStatus.published; id = "done" }

abbrev relay_one : Relay
relay_one = record {
  rows = finished_message ∷ stored_message ∷ [];
  metrics = new_engine_metrics;
  sent = [];
}

finished_found : find_message "done" relay_one.rows ≡ some finished_message
unfolding find_message
finished_found = refl

flush_pending_outbox_keeps_final_example :
    find_message "done" (flush_pending_outbox w1_codec 10 10 (pos 200) down relay_one).0.rows
    ≡ some finished_message
flush_pending_outbox_keeps_final_example =
    flush_pending_outbox_keeps_final w1_codec 10 10 (pos 200) down relay_one "done" finished_message
      finished_found refl

flush_pending_outbox_counts_example :
    let (s', r) = flush_pending_outbox w1_codec 10 10 (pos 200) down relay_one in
    let batch = list_pending_outbox_messages 10 (pos 200) relay_one.rows in
    (r.published + r.failed ≡ r.claimed + claim_errors (length batch) down)
    × (r.claimed ≤ length batch)
    × (length relay_one.sent + r.published ≤ length s'.sent)
    × (r.pending ≡ count_pending_outbox_messages 10 relay_one.rows)
flush_pending_outbox_counts_example =
    flush_pending_outbox_counts w1_codec 10 10 (pos 200) down relay_one

outbox_retry_delay_bounds_example :
    (outbox_base_retry_delay ≤ outbox_retry_delay 3)
    × (outbox_retry_delay 3 ≤ 256 * second)
    × (outbox_retry_delay 3 < outbox_max_retry_delay)
    × (outbox_retry_delay 3 ≤ outbox_retry_delay 9)
    × (1 ≤ 3 → 3 < 9 → outbox_retry_delay (3 + 1) ≡ 2 * outbox_retry_delay 3)
outbox_retry_delay_bounds_example = outbox_retry_delay_bounds 3 9 (omega arith)

marshals : w1_codec.marshal (job_activated 7 "w1" 15) ≡ some (7 ∷ 15 ∷ [])
unfolding marshal_activated
marshals = refl

unmarshal_outbox_event-marshal_example :
    (unmarshal_outbox_event w1_codec (event_type (job_activated 7 "w1" 15)) (7 ∷ 15 ∷ [])
      ≡ event (job_activated 7 "w1" 15))
    × (event_type (job_activated 7 "w1" 15) ≡ event_type (job_completed 7 "w1" 15)
        → kind_of (job_activated 7 "w1" 15) ≡ kind_of (job_completed 7 "w1" 15))
unmarshal_outbox_event-marshal_example =
    unmarshal_outbox_event-marshal w1_codec (job_activated 7 "w1" 15) (job_completed 7 "w1" 15)
      (7 ∷ 15 ∷ []) marshals
