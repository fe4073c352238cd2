-- ===== src/Engine/Tx/Stored.antt =====
-- The outbox row of an event: what persistBufferedEventsToOutbox (engine.go) writes for it, and
-- what a change of the row must keep for the event to be decoded from it.
use flow_go.Prelude.{
  ℕ, suc, String, ◌≡◌, refl, subst, List, [], ◌∷◌, ◌++◌, Option, none, some, arith, eq_iff, ◌==◌,
  string_eq, beq_refl, Bool-cases, inl, inr, if◌then◌else◌,
}
use flow_go.Model.{OutboxMessage}
use flow_go.Model.Event.{Event}
use flow_go.Repository.Messages.{
  find_message, update_message, create_outbox_message, find_message-update_message, claim_if,
  published_columns,
}
use flow_go.Engine.Codec.{Codec, event, unmarshal_outbox_event, unmarshal_outbox_event-marshal}
use flow_go.Engine.Outbox.{failure_columns}
use flow_go.Engine.Relay.Preserves.{Preserved}
use flow_go.Engine.Tx.{
  Result, ok, err, Buffered, new_message, persisted_first, persist_buffered_events,
}

pub find_message-append :
    (id : String) (rows : List OutboxMessage) (x : OutboxMessage)
    → find_message id (rows ++ x ∷ [])
      ≡ (elim (find_message id rows) as (λ _. Option OutboxMessage) [
        | none ↦ if x.id == id then some x else none
        | some m ↦ some m
      ])
unfolding find_message
find_message-append id [] x = refl
find_message-append id (m ∷ rows) x = ground (arith, find_message-append id rows x)

-- The row with this id decodes to this event.
pub record IsStored (codec : Codec) (id : String) (e : Event) (rows : List OutboxMessage)
    : Type 0 where
  pub row : OutboxMessage
  pub found : find_message id rows ≡ some row
  pub decodes : unmarshal_outbox_event codec row.event_type row.payload ≡ event e

-- An update that leaves the ids, types and payloads alone.
record KeepsEvent (f : OutboxMessage → OutboxMessage) : Type 0 where
  ids : (m : OutboxMessage) → (f m).id ≡ m.id
  types : (m : OutboxMessage) → (f m).event_type ≡ m.event_type
  payloads : (m : OutboxMessage) → (f m).payload ≡ m.payload

module _ (codec : Codec) (id : String) (e : Event) where
  IsStored-update :
      (j : String) (f : OutboxMessage → OutboxMessage) (rows : List OutboxMessage)
      → KeepsEvent f
      → IsStored codec id e rows
      → IsStored codec id e (update_message j f rows)
  IsStored-update j f rows k h = elim (Bool-cases (j == id)) [
    | inl same ↦ record {
      row = f h.row;
      found = rw (find_message-update_message j id f rows k.ids, same, h.found);
      decodes = rw (k.types h.row, k.payloads h.row) h.decodes;
    }
    | inr other ↦ record {
      row = h.row;
      found = rw (find_message-update_message j id f rows k.ids, other) h.found;
      decodes = h.decodes;
    }
  ]

  IsStored-append :
      (rows : List OutboxMessage) (x : OutboxMessage)
      → IsStored codec id e rows
      → IsStored codec id e (rows ++ x ∷ [])
  IsStored-append rows x h = record {
    row = h.row;
    found = rw (find_message-append id rows x, h.found);
    decodes = h.decodes;
  }

claim-KeepsEvent : (t : ℕ) → KeepsEvent (claim_if t)
unfolding claim_if
claim-KeepsEvent t = record {
  ids = λ m. ground arith;
  types = λ m. ground arith;
  payloads = λ m. ground arith;
}

failure-KeepsEvent :
    (max_attempts attempt : ℕ) (message : String) (now : ℕ)
    → KeepsEvent (failure_columns max_attempts attempt message now)
unfolding failure_columns
failure-KeepsEvent max_attempts attempt message now = record {
  ids = λ m. ground arith;
  types = λ m. ground arith;
  payloads = λ m. ground arith;
}

published-KeepsEvent : (at : ℕ) → KeepsEvent (published_columns at)
unfolding published_columns
published-KeepsEvent at = record { ids = λ m. refl; types = λ m. refl; payloads = λ m. refl }

-- Each change that the relay makes keeps an event stored.
pub IsStored-Preserved :
    (codec : Codec) (id : String) (e : Event) → Preserved (λ rows sent. IsStored codec id e rows)
IsStored-Preserved codec id e = record {
  claims = λ j t rows sent. IsStored-update codec id e j (claim_if t) rows (claim-KeepsEvent t);
  failures = λ max_attempts j attempt message now rows sent.
      IsStored-update codec id e j (failure_columns max_attempts attempt message now) rows
        (failure-KeepsEvent max_attempts attempt message now);
  sends = λ j x rows sent h. h;
  marks = λ j at rows sent w.
      IsStored-update codec id e j (published_columns at) rows (published-KeepsEvent at);
}

-- The loop of `persistBufferedEventsToOutbox` passed its first event.
pub first_persisted :
    (e : Event) (o : Option (List ℕ)) (id : String) (created_at : ℕ)
    (rest : List OutboxMessage → Result (List OutboxMessage × List Buffered))
    (rows : List OutboxMessage) {rows' : List OutboxMessage} {ps : List Buffered}
    → persisted_first e o id created_at rest rows ≡ ok (rows', ps)
    → (payload : List ℕ) × (ps' : List Buffered) × (o ≡ some payload)
      × (rest (rows ++ new_message e payload id created_at ∷ []) ≡ ok (rows', ps'))
unfolding create_outbox_message
first_persisted e none id created_at rest rows h = cc
first_persisted e (some payload) id created_at rest rows {rows'} {ps} h =
    go (rest (rows ++ new_message e payload id created_at ∷ [])) refl h
  where
    go :
        (r : Result (List OutboxMessage × List Buffered))
        → rest (rows ++ new_message e payload id created_at ∷ []) ≡ r
        → (elim r as (λ _. Result (List OutboxMessage × List Buffered)) [
          | ok (rows'', persisted) ↦ ok (
            rows'',
            (record { event = e; outbox_id = id; outbox_created_at = created_at }) ∷ persisted,
          )
          | err x ↦ err x
        ])
          ≡ ok (rows', ps)
        → (payload' : List ℕ) × (ps' : List Buffered) × (some payload ≡ some payload')
          × (rest (rows ++ new_message e payload' id created_at ∷ []) ≡ ok (rows', ps'))
    go (err x) q k = cc
    go (ok (rows'', persisted)) q k = (payload, persisted, refl, ground arith)

module _ (codec : Codec) where
  -- The i-th event is stored under the i-th id.
  abbrev pub AllStored : (ℕ → String) → List Event → List OutboxMessage → Type 0
  AllStored uuids [] rows = Unit
  AllStored uuids (e ∷ es) rows =
      IsStored codec (uuids 0) e rows × AllStored (λ i. uuids (suc i)) es rows

  -- Rows that are there stay there while more are written.
  persist-keeps :
      (id : String) (x : Event) (es : List Event) (uuids : ℕ → String) (times : ℕ → ℕ)
      (rows : List OutboxMessage) {rows' : List OutboxMessage} {ps : List Buffered}
      → persist_buffered_events codec uuids times es rows ≡ ok (rows', ps)
      → IsStored codec id x rows
      → IsStored codec id x rows'
  unfolding persist_buffered_events
  persist-keeps id x [] uuids times rows h k = subst (IsStored codec id x) (ground arith) k
  persist-keeps id x (e ∷ es) uuids times rows h k =
      let later = persist_buffered_events codec (λ i. uuids (suc i)) (λ i. times (suc i)) es in
      let (payload, ps', m, h') =
        first_persisted e (codec.marshal e) (uuids 0) (times 0) later rows h in
      let message = new_message e payload (uuids 0) (times 0) in
      persist-keeps id x es (λ i. uuids (suc i)) (λ i. times (suc i)) (rows ++ message ∷ []) h'
        (IsStored-append codec id x rows message k)

  pub persist_stores :
      (es : List Event) (uuids : ℕ → String) (times : ℕ → ℕ) (rows : List OutboxMessage)
      {rows' : List OutboxMessage} {ps : List Buffered}
      → persist_buffered_events codec uuids times es rows ≡ ok (rows', ps)
      → ((i : ℕ) → find_message (uuids i) rows ≡ none)
      → ((i j : ℕ) → uuids i ≡ uuids j → i ≡ j)
      → AllStored uuids es rows'
  unfolding persist_buffered_events
  persist_stores [] uuids times rows h fresh distinct = tt
  persist_stores (e ∷ es) uuids times rows {rows'} h fresh distinct =
      let later = persist_buffered_events codec (λ i. uuids (suc i)) (λ i. times (suc i)) es in
      let (payload, ps', m, h') =
        first_persisted e (codec.marshal e) (uuids 0) (times 0) later rows h in
      let message = new_message e payload (uuids 0) (times 0) in
      let first : IsStored codec (uuids 0) e (rows ++ message ∷ []) = record {
        row = message;
        found = rw (find_message-append (uuids 0) rows message, fresh 0, beq_refl (uuids 0));
        decodes = (unmarshal_outbox_event-marshal codec e e payload m).0;
      } in
      (
        persist-keeps (uuids 0) e es (λ i. uuids (suc i)) (λ i. times (suc i))
            (rows ++ message ∷ []) h' first,
        persist_stores es (λ i. uuids (suc i)) (λ i. times (suc i)) (rows ++ message ∷ []) h'
            (λ i. ground (
              arith,
              find_message-append (uuids (suc i)) rows message,
              fresh (suc i),
              eq_iff (uuids 0) (uuids (suc i)),
              distinct 0 (suc i),
            ))
            (λ i j q. omega (arith, distinct (suc i) (suc j) q)),
      )
