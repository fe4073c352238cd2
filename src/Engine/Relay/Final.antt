-- ===== src/Engine/Relay/Final.antt =====
-- The final states of an outbox message, published and failed, under flushPendingOutbox
-- (engine.go).
use flow_go.Prelude.{
  ℕ, suc, ◌+◌, String, ◌≡◌, refl, ◌∙◌, Bool, true, false, List, [], ◌∷◌, ◌++◌, Option, none, some,
  arith, eq_iff, ◌==◌, string_eq, Bool-cases, inl, inr,
}
use flow_go.Prelude.Int.{ℤ, pos}
use flow_go.Model.Event.{Event}
use flow_go.Model.{OutboxStatus, OutboxMessage}
use flow_go.Repository.Messages.{
  claimable, claim_outbox_message, find_message, list_pending_outbox_messages,
  count_pending_outbox_messages, find_message-update_message, published_columns,
}
use flow_go.Engine.Codec.{Codec, Decoded, event, failure, unmarshal_outbox_event}
use flow_go.Engine.Metrics.{set_outbox_pending}
use flow_go.Engine.Outbox.{Relay, Calls, record_outbox_publish_failure, failure_columns}
use flow_go.Engine.Relay.{
  OutboxRelayResult, relay_message, relay_messages, flush_pending_outbox, after_claim, deliver,
  publish, mark_published, no_result,
}
use flow_go.Engine.Relay.Claims.{find_message-claim, claim_not_claimable}

abbrev pub is_final : OutboxStatus → Bool
is_final OutboxStatus.published = true
is_final OutboxStatus.failed = true
is_final _ = false

pub final_not_claimable :
    (t : ℕ) (m : OutboxMessage) → is_final m.status ≡ true → claimable t m ≡ false
unfolding claimable
final_not_claimable t m h = ground arith

pub id-failure_columns :
    (max_attempts attempt : ℕ) (message : String) (now : ℕ) (m : OutboxMessage)
    → (failure_columns max_attempts attempt message now m).id ≡ m.id
unfolding failure_columns
id-failure_columns max_attempts attempt message now m = ground arith

pub find_message-record_failure :
    (max_attempts : ℕ) (id : String) (attempt : ℕ) (message : String) (calls : Calls) (s : Relay)
    (j : String)
    → (id == j) ≡ false
    → find_message j (record_outbox_publish_failure max_attempts id attempt message calls s).rows
      ≡ find_message j s.rows
unfolding record_outbox_publish_failure
find_message-record_failure max_attempts id attempt message calls s j h = ground (
  arith,
  find_message-update_message id j (failure_columns max_attempts attempt message calls.failed_at)
      s.rows (id-failure_columns max_attempts attempt message calls.failed_at),
)

module _ (codec : Codec) (max_attempts : ℕ) where
  mark_other :
      (err : Option String) (msg : OutboxMessage) (calls : Calls) (s : Relay)
      (r : OutboxRelayResult) (j : String)
      → (msg.id == j) ≡ false
      → find_message j (mark_published codec max_attempts err msg calls s r).0.rows
        ≡ find_message j s.rows
  unfolding mark_published
  mark_other (some reason) msg calls s r j h =
      find_message-record_failure max_attempts msg.id (msg.attempts + 1) reason calls s j h
  mark_other none msg calls s r j h = rw (
    find_message-update_message msg.id j (published_columns calls.published_at) s.rows (λ m. refl),
    h,
  )

  publish_other :
      (err : Option String) (e : Event) (msg : OutboxMessage) (calls : Calls) (s : Relay)
      (r : OutboxRelayResult) (j : String)
      → (msg.id == j) ≡ false
      → find_message j (publish codec max_attempts err e msg calls s r).0.rows
        ≡ find_message j s.rows
  unfolding publish
  publish_other (some reason) e msg calls s r j h =
      find_message-record_failure max_attempts msg.id (msg.attempts + 1) reason calls s j h
  publish_other none e msg calls s r j h =
      mark_other calls.mark_error msg calls (record s { sent = s.sent ++ (msg.id, e) ∷ [] }) r j h

  deliver_other :
      (d : Decoded) (msg : OutboxMessage) (calls : Calls) (s : Relay) (r : OutboxRelayResult)
      (j : String)
      → (msg.id == j) ≡ false
      → find_message j (deliver codec max_attempts d msg calls s r).0.rows ≡ find_message j s.rows
  unfolding deliver
  deliver_other (failure reason) msg calls s r j h =
      find_message-record_failure max_attempts msg.id (msg.attempts + 1) reason calls s j h
  deliver_other (event e) msg calls s r j h = publish_other calls.publish_error e msg calls s r j h

  claimed_other :
      (claim : List OutboxMessage × Bool) (msg : OutboxMessage) (calls : Calls) (s : Relay)
      (r : OutboxRelayResult) (j : String)
      → (msg.id == j) ≡ false
      → find_message j (after_claim codec max_attempts claim msg calls s r).0.rows
        ≡ find_message j claim.0
  unfolding after_claim
  claimed_other (rows, false) msg calls s r j h = refl
  claimed_other (rows, true) msg calls s r j h =
      deliver_other (unmarshal_outbox_event codec msg.event_type msg.payload) msg calls
        (record s { rows = rows }) (record r { claimed = r.claimed + 1 }) j h

  -- A round touches no row but its own message's.
  pub relay_other :
      (msg : OutboxMessage) (calls : Calls) (s : Relay) (r : OutboxRelayResult) (j : String)
      → (msg.id == j) ≡ false
      → find_message j (relay_message codec max_attempts msg calls s r).0.rows
        ≡ find_message j s.rows
  unfolding relay_message
  relay_other msg calls s r j h = ground (
    arith,
    claimed_other (claim_outbox_message msg.id calls.claimed_at s.rows) msg calls s r j h,
    find_message-claim msg.id j calls.claimed_at s.rows,
  )

  relay_final :
      (msg : OutboxMessage) (calls : Calls) (s : Relay) (r : OutboxRelayResult) (m : OutboxMessage)
      → find_message msg.id s.rows ≡ some m
      → is_final m.status ≡ true
      → (relay_message codec max_attempts msg calls s r).0.rows ≡ s.rows
  unfolding relay_message after_claim
  relay_final msg calls s r m e h = ground (
    arith,
    claim_not_claimable msg.id calls.claimed_at s.rows m e
        (final_not_claimable calls.claimed_at m h),
  )

  step_keeps_final :
      (msg : OutboxMessage) (calls : Calls) (s : Relay) (r : OutboxRelayResult) (j : String)
      (m : OutboxMessage)
      → find_message j s.rows ≡ some m
      → is_final m.status ≡ true
      → find_message j (relay_message codec max_attempts msg calls s r).0.rows ≡ some m
  step_keeps_final msg calls s r j m e h = elim (Bool-cases (msg.id == j)) [
    | inl same ↦
        let id : msg.id ≡ j = (eq_iff msg.id j).0 same in
        rw (relay_final msg calls s r m (rw id e) h) e
    | inr other ↦ relay_other msg calls s r j other ∙ e
  ]

  loop_keeps_final :
      (msgs : List OutboxMessage) (calls : ℕ → Calls) (s : Relay) (r : OutboxRelayResult)
      (j : String) (m : OutboxMessage)
      → find_message j s.rows ≡ some m
      → is_final m.status ≡ true
      → find_message j (relay_messages codec max_attempts msgs calls s r).0.rows ≡ some m
  unfolding relay_messages
  loop_keeps_final [] calls s r j m e h = e
  loop_keeps_final (msg ∷ msgs) calls s r j m e h =
      let (s', r') = relay_message codec max_attempts msg (calls 0) s r in
      loop_keeps_final msgs (λ i. calls (suc i)) s' r' j m
        (step_keeps_final msg (calls 0) s r j m e h) h

-- A relay cycle leaves the row of a published or terminally failed message exactly as it is,
-- whatever the batch, the clock and the answers of the database and the publisher are.
pub flush_pending_outbox_keeps_final :
    (codec : Codec) (max_attempts now : ℕ) (limit : ℤ) (calls : ℕ → Calls) (s : Relay) (j : String)
    (m : OutboxMessage)
    → find_message j s.rows ≡ some m
    → is_final m.status ≡ true
    → find_message j (flush_pending_outbox codec max_attempts now limit calls s).0.rows ≡ some m
unfolding flush_pending_outbox
flush_pending_outbox_keeps_final codec max_attempts now limit calls s j m e h =
    let pending = count_pending_outbox_messages now s.rows in
    loop_keeps_final codec max_attempts (list_pending_outbox_messages now limit s.rows) calls
      (record s { metrics = set_outbox_pending (pos pending) s.metrics })
      (record no_result { pending = pending }) j m e h
