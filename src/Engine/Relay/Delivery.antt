-- ===== src/Engine/Relay/Delivery.antt =====
-- The status `published` of outbox rows, and the messages that the publisher accepted (engine.go).
use flow_go.Prelude.{
  ℕ, String, ◌≡◌, ◌≢◌, refl, ◌⊎◌, inl, inr, true, List, [], ◌∷◌, ◌++◌, some, arith, eq_iff,
  string_eq, Option-cases,
}
use flow_go.Model.{OutboxStatus, OutboxMessage}
use flow_go.Model.Event.{Event}
use flow_go.Repository.Messages.{
  claim_if, find_message, update_message, find_message-update_message, published_columns,
}
use flow_go.Engine.Outbox.{failure_columns}
use flow_go.Engine.Relay.Claims.{id-claim_if}
use flow_go.Engine.Relay.Final.{id-failure_columns}
use flow_go.Engine.Relay.Preserves.{Preserved, was_sent, was_sent-append}

pub record Delivered (rows : List OutboxMessage) (sent : List (String × Event)) : Type 0 where
  pub at :
      (j : String) (m : OutboxMessage)
      → find_message j rows ≡ some m
      → m.status ≡ OutboxStatus.published
      → was_sent j sent ≡ true

pub Delivered-sent :
    (id : String) (e : Event) (rows : List OutboxMessage) (sent : List (String × Event))
    → Delivered rows sent
    → Delivered rows (sent ++ (id, e) ∷ [])
Delivered-sent id e rows sent h = record {
  at = λ j m f p. rw (was_sent-append id j e sent, h.at j m f p);
}

-- An update keeps the property, if the rows that it marks as published were so before or were sent.
pub Delivered-update :
    (id : String) (f : OutboxMessage → OutboxMessage) (rows : List OutboxMessage)
    (sent : List (String × Event))
    → ((m : OutboxMessage) → (f m).id ≡ m.id)
    → ((m : OutboxMessage)
        → (f m).status ≡ OutboxStatus.published
        → (m.status ≡ OutboxStatus.published) ⊎ (was_sent id sent ≡ true))
    → Delivered rows sent
    → Delivered (update_message id f rows) sent
Delivered-update id f rows sent keeps marks h = record { at = λ j m e p. go j m e p }
  where
    go :
        (j : String) (m : OutboxMessage)
        → find_message j (update_message id f rows) ≡ some m
        → m.status ≡ OutboxStatus.published
        → was_sent j sent ≡ true
    go j m e p = elim (Option-cases (find_message j rows)) [
      | inl gone ↦ ground (arith, find_message-update_message id j f rows keeps)
      | inr (old, found) ↦
          ground (
            arith,
            find_message-update_message id j f rows keeps,
            marks old,
            h.at j old,
            eq_iff id j,
          )
    ]

claim_if_status :
    (t : ℕ) (m : OutboxMessage)
    → (claim_if t m).status ≡ OutboxStatus.published
    → m.status ≡ OutboxStatus.published
unfolding claim_if
claim_if_status t m h = ground arith

failure_status :
    (max_attempts attempt : ℕ) (message : String) (now : ℕ) (m : OutboxMessage)
    → (failure_columns max_attempts attempt message now m).status ≢ OutboxStatus.published
unfolding failure_columns
failure_status max_attempts attempt message now m h = ground arith

pub published-Delivered :
    (id : String) (at : ℕ) (rows : List OutboxMessage) (sent : List (String × Event))
    → was_sent id sent ≡ true
    → Delivered rows sent
    → Delivered (update_message id (published_columns at) rows) sent
unfolding published_columns
published-Delivered id at rows sent s h =
    Delivered-update id (published_columns at) rows sent (λ m. refl) (λ m p. inr s) h

-- Each change that the relay makes keeps the property.
pub Delivered-Preserved : Preserved Delivered
Delivered-Preserved = record {
  claims = λ id t rows sent h.
      Delivered-update id (claim_if t) rows sent (id-claim_if t)
        (λ m p. inl (claim_if_status t m p)) h;
  failures = λ max_attempts id attempt message now rows sent h.
      Delivered-update id (failure_columns max_attempts attempt message now) rows sent
        (id-failure_columns max_attempts attempt message now)
        (λ m p. absurd (failure_status max_attempts attempt message now m p)) h;
  sends = Delivered-sent;
  marks = published-Delivered;
}
