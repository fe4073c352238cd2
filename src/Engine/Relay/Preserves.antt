-- ===== src/Engine/Relay/Preserves.antt =====
-- A rule for predicates on the outbox rows and the sent messages together: the four changes that
-- flushPendingOutbox and flushBufferedEvents (engine.go) make of them.
use flow_go.Prelude.{
  ℕ, suc, ◌+◌, String, ◌≡◌, Bool, true, false, List, [], ◌∷◌, ◌++◌, Option, none, some, arith, ◌==◌,
  ◌||◌, string_eq, beq_refl, any, if◌then◌else◌,
}
use flow_go.Prelude.Int.{ℤ, pos}
use flow_go.Prelude.Text.{is_empty}
use flow_go.Model.{OutboxMessage}
use flow_go.Model.Event.{Event}
use flow_go.Repository.Messages.{
  claim_if, claim_outbox_message, update_message, list_pending_outbox_messages,
  count_pending_outbox_messages, published_columns,
}
use flow_go.Engine.Codec.{Codec, Decoded, event, failure, unmarshal_outbox_event}
use flow_go.Engine.Metrics.{set_outbox_pending, inc_outbox_publish_failure}
use flow_go.Engine.Outbox.{Relay, Calls, record_outbox_publish_failure, failure_columns}
use flow_go.Engine.Relay.{
  OutboxRelayResult, relay_message, relay_messages, flush_pending_outbox, after_claim, deliver,
  publish, mark_published, no_result, flush_publish, flush_mark, count_failed,
}

unfoldable pub was_sent : String → List (String × Event) → Bool
was_sent id sent = any (λ (p : String × Event). p.0 == id) sent

pub was_sent-append :
    (id j : String) (e : Event) (sent : List (String × Event))
    → was_sent j (sent ++ (id, e) ∷ []) ≡ (if was_sent j sent then true else id == j)
unfolding was_sent
was_sent-append id j e [] = ground arith
was_sent-append id j e (p ∷ sent) = ground (arith, was_sent-append id j e sent)

was_sent_last :
    (id : String) (e : Event) (sent : List (String × Event))
    → was_sent id (sent ++ (id, e) ∷ []) ≡ true
was_sent_last id e sent = ground (arith, was_sent-append id id e sent, beq_refl id)

pub record Preserved (P : List OutboxMessage → List (String × Event) → Type 0) : Type 0 where
  pub claims :
      (id : String) (t : ℕ) (rows : List OutboxMessage) (sent : List (String × Event))
      → P rows sent
      → P (update_message id (claim_if t) rows) sent
  pub failures :
      (max_attempts : ℕ) (id : String) (attempt : ℕ) (message : String) (now : ℕ)
      (rows : List OutboxMessage) (sent : List (String × Event))
      → P rows sent
      → P (update_message id (failure_columns max_attempts attempt message now) rows) sent
  pub sends :
      (id : String) (e : Event) (rows : List OutboxMessage) (sent : List (String × Event))
      → P rows sent
      → P rows (sent ++ (id, e) ∷ [])
  pub marks :
      (id : String) (at : ℕ) (rows : List OutboxMessage) (sent : List (String × Event))
      → was_sent id sent ≡ true
      → P rows sent
      → P (update_message id (published_columns at) rows) sent

module _ (P : List OutboxMessage → List (String × Event) → Type 0) (keep : Preserved P) where
  abbrev Holds : Relay → Type 0
  Holds s = P s.rows s.sent

  pub record_failure-keeps :
      (max_attempts : ℕ) (id : String) (attempt : ℕ) (message : String) (calls : Calls) (s : Relay)
      → Holds s
      → Holds (record_outbox_publish_failure max_attempts id attempt message calls s)
  unfolding record_outbox_publish_failure
  record_failure-keeps max_attempts id attempt message calls s h =
      go (is_empty id || calls.record_error)
    where
      f : OutboxMessage → OutboxMessage
      f = failure_columns max_attempts attempt message calls.failed_at

      counted : Relay
      counted = record s { metrics = inc_outbox_publish_failure s.metrics }

      go :
          (b : Bool)
          → Holds (if b then counted else record counted { rows = update_message id f s.rows })
      go true = h
      go false = keep.failures max_attempts id attempt message calls.failed_at s.rows s.sent h

  module _ (codec : Codec) (max_attempts : ℕ) where
    mark-keeps :
        (err : Option String) (msg : OutboxMessage) (calls : Calls) (s : Relay)
        (r : OutboxRelayResult)
        → was_sent msg.id s.sent ≡ true
        → Holds s
        → Holds (mark_published codec max_attempts err msg calls s r).0
    unfolding mark_published
    mark-keeps (some reason) msg calls s r w h =
        record_failure-keeps max_attempts msg.id (msg.attempts + 1) reason calls s h
    mark-keeps none msg calls s r w h = keep.marks msg.id calls.published_at s.rows s.sent w h

    deliver-keeps :
        (d : Decoded) (msg : OutboxMessage) (calls : Calls) (s : Relay) (r : OutboxRelayResult)
        → Holds s
        → Holds (deliver codec max_attempts d msg calls s r).0
    unfolding deliver
    deliver-keeps (failure reason) msg calls s r h =
        record_failure-keeps max_attempts msg.id (msg.attempts + 1) reason calls s h
    deliver-keeps (event e) msg calls s r h = go calls.publish_error
      where
        go : (err : Option String) → Holds (publish codec max_attempts err e msg calls s r).0
        go (some reason) =
            record_failure-keeps max_attempts msg.id (msg.attempts + 1) reason calls s h
        go none =
            mark-keeps calls.mark_error msg calls (record s { sent = s.sent ++ (msg.id, e) ∷ [] }) r
              (was_sent_last msg.id e s.sent) (keep.sends msg.id e s.rows s.sent h)

    claimed-keeps :
        (rows : List OutboxMessage) (b : Bool) (msg : OutboxMessage) (calls : Calls) (s : Relay)
        (r : OutboxRelayResult)
        → P rows s.sent
        → Holds (after_claim codec max_attempts (rows, b) msg calls s r).0
    unfolding after_claim
    claimed-keeps rows false msg calls s r h = h
    claimed-keeps rows true msg calls s r h =
        deliver-keeps (unmarshal_outbox_event codec msg.event_type msg.payload) msg calls
          (record s { rows = rows }) (record r { claimed = r.claimed + 1 }) h

    step-keeps :
        (msg : OutboxMessage) (calls : Calls) (s : Relay) (r : OutboxRelayResult)
        → Holds s
        → Holds (relay_message codec max_attempts msg calls s r).0
    unfolding relay_message claim_outbox_message
    step-keeps msg calls s r h = go calls.claim_error
      where
        claim : List OutboxMessage × Bool
        claim = claim_outbox_message msg.id calls.claimed_at s.rows

        claimed : P claim.0 s.sent
        claimed = keep.claims msg.id calls.claimed_at s.rows s.sent h

        go :
            (b : Bool)
            → Holds
                (if b
                  then (s, count_failed r)
                  else after_claim codec max_attempts claim msg calls s r).0
        go true = h
        go false = claimed-keeps claim.0 claim.1 msg calls s r claimed

    loop-keeps :
        (msgs : List OutboxMessage) (calls : ℕ → Calls) (s : Relay) (r : OutboxRelayResult)
        → Holds s
        → Holds (relay_messages codec max_attempts msgs calls s r).0
    unfolding relay_messages
    loop-keeps [] calls s r h = h
    loop-keeps (msg ∷ msgs) calls s r h =
        let (s', r') = relay_message codec max_attempts msg (calls 0) s r in
        loop-keeps msgs (λ i. calls (suc i)) s' r' (step-keeps msg (calls 0) s r h)

    pub flush_pending_outbox-keeps :
        (now : ℕ) (limit : ℤ) (calls : ℕ → Calls) (s : Relay)
        → Holds s
        → Holds (flush_pending_outbox codec max_attempts now limit calls s).0
    unfolding flush_pending_outbox
    flush_pending_outbox-keeps now limit calls s h =
        let pending = count_pending_outbox_messages now s.rows in
        loop-keeps (list_pending_outbox_messages now limit s.rows) calls
          (record s { metrics = set_outbox_pending (pos pending) s.metrics })
          (record no_result { pending = pending }) h

  flush_mark-keeps :
      (max_attempts : ℕ) (err : Option String) (id : String) (created_at : ℕ) (calls : Calls)
      (s : Relay)
      → was_sent id s.sent ≡ true
      → Holds s
      → Holds (flush_mark max_attempts err id created_at calls s)
  unfolding flush_mark
  flush_mark-keeps max_attempts (some reason) id created_at calls s w h =
      record_failure-keeps max_attempts id 1 reason calls s h
  flush_mark-keeps max_attempts none id created_at calls s w h =
      keep.marks id calls.published_at s.rows s.sent w h

  pub flush_publish-keeps :
      (max_attempts : ℕ) (err : Option String) (id : String) (created_at : ℕ) (e : Event)
      (calls : Calls) (s : Relay)
      → Holds s
      → Holds (flush_publish max_attempts err id created_at e calls s)
  unfolding flush_publish
  flush_publish-keeps max_attempts (some reason) id created_at e calls s h =
      record_failure-keeps max_attempts id 1 reason calls s h
  flush_publish-keeps max_attempts none id created_at e calls s h = go (is_empty id)
    where
      s' : Relay
      s' = record s { sent = s.sent ++ (id, e) ∷ [] }

      sent : Holds s'
      sent = keep.sends id e s.rows s.sent h

      go :
          (b : Bool)
          → Holds
              (if b then s' else flush_mark max_attempts calls.mark_error id created_at calls s')
      go true = sent
      go false =
          flush_mark-keeps max_attempts calls.mark_error id created_at calls s'
            (was_sent_last id e s.sent) sent
