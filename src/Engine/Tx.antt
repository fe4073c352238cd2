-- ===== src/Engine/Tx.antt =====
-- The transaction boundary of backend/services/workflow-command/internal/application/engine.go:
-- transactionalEventPublisher, withTx and persistBufferedEventsToOutbox, as a monad of actions that
-- may fail. A failing action leaves no state behind: its database transaction rolls back, and the
-- events that it buffered are dropped with the buffer.
pub mod Atomic
pub mod Stored
pub mod Outbox
use flow_go.Prelude.{
  ℕ, suc, String, ◌≡◌, Bool, true, false, List, [], ◌∷◌, ◌++◌, Option, none, some, refl,
  if◌then◌else◌,
}
use flow_go.Prelude.Int.{ℤ, pos}
use flow_go.Model.{OutboxStatus, OutboxMessage}
use flow_go.Model.Event.{Event, event_type}
use flow_go.Repository.{Db}
use flow_go.Repository.Messages.{create_outbox_message, count_pending_outbox_messages}
use flow_go.Engine.Codec.{Codec}
use flow_go.Engine.Metrics.{EngineMetrics, set_outbox_pending}
use flow_go.Engine.Outbox.{Relay, Calls}
use flow_go.Engine.Relay.{flush_publish, flush_pending_outbox}

-- The errors that the modelled operations return; the texts name the constructors.
pub data Error : Type 0 where
  not_found worker_required no_active_lock lock_expired not_activated : Error
  already_completed invalid_lock_duration owner_required must_be_claimed : Error
  user_task_completed no_user_task_job : Error
  locked_by claimed_by : String → Error
  marshal_failed : String → Error
  commit_failed execution_failed : Error

pub data Result {ℓ} (A : Type ℓ) : Type ℓ where
  ok : A → Result A
  err : Error → Result A

pub ok-injective {ℓ} : {A : Type ℓ} {a b : A} → ok a ≡ ok b → a ≡ b
ok-injective h = cc

-- What a transaction works on: the tables, and the events buffered so far.
pub record Session : Type 0 where
  pub db : Db
  pub events : List Event

abbrev pub Tx : Type 0 → Type 0
Tx A = Session → Result (A × Session)

infixl 5 ◌>>=◌ ◌>>◌
abbrev pub ◌>>=◌ : {A B : Type 0} → Tx A → (A → Tx B) → Tx B
◌>>=◌ m f s = elim (m s) [ ok (a, s') ↦ f a s' | err e ↦ err e ]

abbrev pub ◌>>◌ : {A B : Type 0} → Tx A → Tx B → Tx B
m >> k = m >>= λ _. k

abbrev pub pure : {A : Type 0} → A → Tx A
pure a s = ok (a, s)

abbrev pub fail : {A : Type 0} → Error → Tx A
fail e s = err e

abbrev pub require : Bool → Error → Tx (Unit {0})
require true e s = ok (tt, s)
require false e s = err e

-- `transactionalEventPublisher.Publish`: it only appends.
abbrev pub publish : Event → Tx (Unit {0})
publish e s = ok (tt, record s { events = s.events ++ e ∷ [] })

-- An event that was written to the outbox, with its row's id and creation time.
pub record Buffered : Type 0 where
  pub event : Event
  pub outbox_id : String
  pub outbox_created_at : ℕ

abbrev new_message : Event → List ℕ → String → ℕ → OutboxMessage
new_message e payload id created_at = record {
  id = id;
  event_type = event_type e;
  payload = payload;
  status = OutboxStatus.pending;
  attempts = 0;
  last_error = "";
  next_attempt = none;
  processing_started_at = none;
  created_at = created_at;
  published_at = none;
}

-- The rest of the loop after the i-th event was marshalled.
abbrev pub persisted_first :
    Event
    → Option (List ℕ)
    → String
    → ℕ
    → (List OutboxMessage → Result (List OutboxMessage × List Buffered))
    → List OutboxMessage
    → Result (List OutboxMessage × List Buffered)
persisted_first e none id created_at rest rows = err (marshal_failed (event_type e))
persisted_first e (some payload) id created_at rest rows =
    elim (rest (create_outbox_message (new_message e payload id created_at) rows)) [
      | ok (rows', persisted) ↦ ok (
        rows',
        (record { event = e; outbox_id = id; outbox_created_at = created_at }) ∷ persisted,
      )
      | err x ↦ err x
    ]

-- `uuids i` and `times i` are the id and the time that the i-th event draws.
unfoldable pub persist_buffered_events :
    Codec
    → (ℕ → String)
    → (ℕ → ℕ)
    → List Event
    → List OutboxMessage
    → Result (List OutboxMessage × List Buffered)
unfolding create_outbox_message
persist_buffered_events codec uuids times [] rows = ok (rows, [])
persist_buffered_events codec uuids times (e ∷ es) rows =
    persisted_first e (codec.marshal e) (uuids 0) (times 0)
      (persist_buffered_events codec (λ i. uuids (suc i)) (λ i. times (suc i)) es) rows

unfoldable pub flush_buffered_events : ℕ → List Buffered → (ℕ → Calls) → Relay → Relay
flush_buffered_events max_attempts [] calls s = s
flush_buffered_events max_attempts (b ∷ bs) calls s =
    flush_buffered_events max_attempts bs (λ i. calls (suc i))
      (flush_publish max_attempts (calls 0).publish_error b.outbox_id b.outbox_created_at b.event
        (calls 0) s)

-- What a call of `withTx` meets: the ids and times it draws, whether the commit fails, and the
-- answers to the calls of the two flushes.
pub record TxEnv : Type 0 where
  pub uuids : ℕ → String
  pub times : ℕ → ℕ
  pub commit_error : Bool
  pub flush_calls : ℕ → Calls
  pub relay_now : ℕ
  pub count_error : Bool
  pub list_error : Bool
  pub relay_calls : ℕ → Calls

-- The engine between transactions.
pub record Engine : Type 0 where
  pub db : Db
  pub metrics : EngineMetrics
  pub sent : List (String × Event)

abbrev pub outbox_flush_batch_size : ℤ
outbox_flush_batch_size = pos 200

module _ (codec : Codec) (max_attempts : ℕ) (env : TxEnv) where
  -- The relay cycle that follows, which ends early if its count or its listing fails.
  abbrev pub relayed : Relay → Relay
  relayed s =
      if env.count_error
      then s
      else if env.list_error
      then record s {
        metrics =
            set_outbox_pending (pos (count_pending_outbox_messages env.relay_now s.rows)) s.metrics;
      }
      else (flush_pending_outbox codec max_attempts env.relay_now outbox_flush_batch_size
          env.relay_calls s).0

  -- After the commit: the two flushes, on the committed rows.
  unfoldable pub after_commit : Db → List OutboxMessage → List Buffered → Engine → Engine
  unfolding flush_buffered_events flush_pending_outbox
  after_commit db rows persisted eng =
      let s = relayed (
        flush_buffered_events max_attempts persisted env.flush_calls
          (record { rows = rows; metrics = eng.metrics; sent = eng.sent })) in
      record { db = record db { outbox = s.rows }; metrics = s.metrics; sent = s.sent }

  -- The end of the transaction function and the commit.
  unfoldable pub finish :
      {A : Type 0}
      → Result (List OutboxMessage × List Buffered)
      → A
      → Db
      → Engine
      → Result A × Engine
  unfolding after_commit
  finish (err e) a db eng = (err e, eng)
  finish (ok (rows, persisted)) a db eng =
      if env.commit_error
      then (err commit_failed, eng)
      else (ok a, after_commit db rows persisted eng)

  unfoldable pub commit : {A : Type 0} → Result (A × Session) → Engine → Result A × Engine
  unfolding persist_buffered_events finish
  commit (err e) eng = (err e, eng)
  commit (ok (a, s)) eng =
      finish (persist_buffered_events codec env.uuids env.times s.events s.db.outbox) a s.db eng

  unfoldable pub with_tx : {A : Type 0} → Tx A → Engine → Result A × Engine
  unfolding commit
  with_tx m eng = commit (m (record { db = eng.db; events = [] })) eng

-- Inversion of a sequence that succeeds.
pub bind_ok :
    {A B : Type 0} (m : Tx A) (f : A → Tx B) (s : Session) {b : B} {s'' : Session}
    → (m >>= f) s ≡ ok (b, s'')
    → (a : A) × (s' : Session) × (m s ≡ ok (a, s')) × (f a s' ≡ ok (b, s''))
bind_ok {A} {B} m f s {b} {s''} h = go (m s) refl h
  where
    go :
        (r : Result (A × Session))
        → m s ≡ r
        → (elim r as (λ _. Result (B × Session)) [ ok (a, s') ↦ f a s' | err e ↦ err e ])
          ≡ ok (b, s'')
        → (a : A) × (s' : Session) × (m s ≡ ok (a, s')) × (f a s' ≡ ok (b, s''))
    go (ok (a, s')) q k = (a, s', q, k)
    go (err e) q k = cc
