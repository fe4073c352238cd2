-- ===== src/Engine/Relay/Accounting.antt =====
-- What the counters of a relay cycle add up to.
use flow_go.Prelude.{
  ℕ, suc, ◌+◌, ◌≤◌, ◌≡◌, Bool, true, false, List, [], ◌∷◌, arith, length, length-append,
  if◌then◌else◌,
}
use flow_go.Model.{OutboxMessage}
use flow_go.Prelude.Int.{ℤ, pos}
use flow_go.Repository.Messages.{
  claim_outbox_message, list_pending_outbox_messages, count_pending_outbox_messages,
}
use flow_go.Engine.Metrics.{set_outbox_pending}
use flow_go.Engine.Codec.{Codec, Decoded, unmarshal_outbox_event, event, failure}
use flow_go.Engine.Outbox.{Relay, Calls}
use flow_go.Engine.Relay.{
  OutboxRelayResult, relay_message, relay_messages, after_claim, deliver, flush_pending_outbox,
  no_result,
}

-- The claims that fail with an error, among the first `n` messages.
abbrev pub claim_errors : ℕ → (ℕ → Calls) → ℕ
claim_errors ℕ.zero calls = 0
claim_errors (suc n) calls =
    (if (calls 0).claim_error then 1 else 0) + claim_errors n (λ i. calls (suc i))

module _ (codec : Codec) (max_attempts : ℕ) where
  deliver_counts :
      (d : Decoded) (msg : OutboxMessage) (calls : Calls) (s : Relay) (r : OutboxRelayResult)
      → let (s', r') = deliver codec max_attempts d msg calls s r in
        (r'.published + r'.failed ≡ r.published + r.failed + 1)
        × (r'.claimed ≡ r.claimed)
        × (r'.pending ≡ r.pending)
        × (length s'.sent + r.published ≤ length s.sent + r'.published + 1)
        × (length s.sent + r'.published ≤ length s'.sent + r.published)
  unfolding deliver
  deliver_counts (failure reason) msg calls s r = ground arith
  deliver_counts (event e) msg calls s r = ground (arith, length-append s.sent ((msg.id, e) ∷ []))

  abbrev StepCounts : ℕ → Relay → OutboxRelayResult → Relay × OutboxRelayResult → Type 0
  StepCounts errors s r (s', r') =
      (r'.published + r'.failed + r.claimed ≡ r.published + r.failed + r'.claimed + errors)
      × (r'.claimed ≤ r.claimed + 1)
      × (length s.sent + r'.published ≤ length s'.sent + r.published)
      × (r'.pending ≡ r.pending)

  after_claim_counts :
      (claim : List OutboxMessage × Bool) (msg : OutboxMessage) (calls : Calls) (s : Relay)
      (r : OutboxRelayResult)
      → StepCounts 0 s r (after_claim codec max_attempts claim msg calls s r)
  unfolding after_claim
  after_claim_counts (rows, false) msg calls s r = omega arith
  after_claim_counts (rows, true) msg calls s r = omega (
    arith,
    deliver_counts (unmarshal_outbox_event codec msg.event_type msg.payload) msg calls
        (record s { rows = rows }) (record r { claimed = r.claimed + 1 }),
  )

  abbrev one_if : Bool → ℕ
  one_if b = if b then 1 else 0

  step_counts :
      (msg : OutboxMessage) (calls : Calls) (s : Relay) (r : OutboxRelayResult)
      → StepCounts (one_if calls.claim_error) s r (relay_message codec max_attempts msg calls s r)
  unfolding relay_message
  step_counts msg calls s r = ground (
    arith,
    after_claim_counts (claim_outbox_message msg.id calls.claimed_at s.rows) msg calls s r,
  )

  loop_counts :
      (msgs : List OutboxMessage) (calls : ℕ → Calls) (s : Relay) (r : OutboxRelayResult)
      → let (s', r') = relay_messages codec max_attempts msgs calls s r in
        (r'.published + r'.failed + r.claimed
          ≡ r.published + r.failed + r'.claimed + claim_errors (length msgs) calls)
        × (r'.claimed ≤ r.claimed + length msgs)
        × (length s.sent + r'.published ≤ length s'.sent + r.published)
        × (r'.pending ≡ r.pending)
  unfolding relay_messages
  loop_counts [] calls s r = omega arith
  loop_counts (msg ∷ msgs) calls s r =
      let (s', r') = relay_message codec max_attempts msg (calls 0) s r in
      omega (arith, step_counts msg (calls 0) s r, loop_counts msgs (λ i. calls (suc i)) s' r')

-- In a cycle every claim that errs counts as failed, every message that was claimed counts as
-- published or as failed, no more messages are claimed than the batch holds, the publisher has
-- accepted at least as many messages as count as published, and the pending count is that of the
-- rows at the start.
pub flush_pending_outbox_counts :
    (codec : Codec) (max_attempts now : ℕ) (limit : ℤ) (calls : ℕ → Calls) (s : Relay)
    → let (s', r) = flush_pending_outbox codec max_attempts now limit calls s in
      let batch = list_pending_outbox_messages now limit s.rows in
      (r.published + r.failed ≡ r.claimed + claim_errors (length batch) calls)
      × (r.claimed ≤ length batch)
      × (length s.sent + r.published ≤ length s'.sent)
      × (r.pending ≡ count_pending_outbox_messages now s.rows)
unfolding flush_pending_outbox
flush_pending_outbox_counts codec max_attempts now limit calls s =
    let pending = count_pending_outbox_messages now s.rows in
    omega (
      arith,
      loop_counts codec max_attempts (list_pending_outbox_messages now limit s.rows) calls
          (record s { metrics = set_outbox_pending (pos pending) s.metrics })
          (record no_result { pending = pending }),
    )
