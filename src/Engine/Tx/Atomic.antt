-- ===== src/Engine/Tx/Atomic.antt =====
-- withTx (engine.go) when it fails and when it commits.
use flow_go.Prelude.{
  ℕ, suc, String, ◌≡◌, refl, inl, inr, List, [], ◌∷◌, arith, string_eq, Bool-cases, ap,
}
use flow_go.Model.{OutboxMessage}
use flow_go.Model.Event.{Event}
use flow_go.Repository.{Db}
use flow_go.Engine.Codec.{Codec}
use flow_go.Engine.Outbox.{Relay, Calls}
use flow_go.Engine.Relay.{flush_publish}
use flow_go.Engine.Relay.Preserves.{Preserved, flush_publish-keeps, flush_pending_outbox-keeps}
use flow_go.Engine.Tx.{
  Error, Result, ok, err, Session, Tx, Buffered, persist_buffered_events, flush_buffered_events,
  TxEnv, Engine, after_commit, commit, finish, ok-injective, with_tx, relayed,
  outbox_flush_batch_size,
}

module _ (codec : Codec) (max_attempts : ℕ) (env : TxEnv) where
  finish-err :
      {A : Type 0} (r : Result (List OutboxMessage × List Buffered)) (a : A) (db : Db)
      (eng : Engine) {e : Error}
      → (finish codec max_attempts env r a db eng).0 ≡ err e
      → (finish codec max_attempts env r a db eng).1 ≡ eng
  unfolding finish
  finish-err (err x) a db eng h = refl
  finish-err (ok (rows, persisted)) a db eng h = ground arith

  commit-err :
      {A : Type 0} (r : Result (A × Session)) (eng : Engine) {e : Error}
      → (commit codec max_attempts env r eng).0 ≡ err e
      → (commit codec max_attempts env r eng).1 ≡ eng
  unfolding commit
  commit-err (err x) eng h = refl
  commit-err (ok (a, s)) eng h =
      finish-err (persist_buffered_events codec env.uuids env.times s.events s.db.outbox) a s.db eng
        h

  finish-ok :
      {A : Type 0} (r : Result (List OutboxMessage × List Buffered)) (a : A) (db : Db)
      (eng : Engine) {b : A}
      → (finish codec max_attempts env r a db eng).0 ≡ ok b
      → (rows : List OutboxMessage) × (persisted : List Buffered) × (r ≡ ok (rows, persisted))
        × ((finish codec max_attempts env r a db eng).1
            ≡ after_commit codec max_attempts env db rows persisted eng)
        × (a ≡ b)
  unfolding finish
  finish-ok (err x) a db eng h = cc
  finish-ok (ok (rows, persisted)) a db eng h = elim (Bool-cases env.commit_error) [
    | inl bad ↦ cc (rw bad at h)
    | inr fine ↦ (rows, persisted, refl, rw fine, ok-injective (rw fine at h))
  ]

  -- A committed action has run to its end, and its events were persisted.
  pub commit-ok :
      {A : Type 0} (r : Result (A × Session)) (eng : Engine) {b : A}
      → (commit codec max_attempts env r eng).0 ≡ ok b
      → (s : Session) × (rows : List OutboxMessage) × (persisted : List Buffered) × (r ≡ ok (b, s))
        × (persist_buffered_events codec env.uuids env.times s.events s.db.outbox
            ≡ ok (rows, persisted))
        × ((commit codec max_attempts env r eng).1
            ≡ after_commit codec max_attempts env s.db rows persisted eng)
  unfolding commit
  commit-ok (err x) eng h = cc
  commit-ok (ok (a, s)) eng h =
      let (rows, persisted, e, after, same) =
        finish-ok (persist_buffered_events codec env.uuids env.times s.events s.db.outbox) a s.db
          eng h in
      (s, rows, persisted, ap (λ x. ok (x, s)) same, e, after)

  -- A transaction that returns an error changes nothing: the tables, the counters and the messages
  -- sent are what they were.
  pub with_tx_aborts :
      {A : Type 0} (m : Tx A) (eng : Engine) {e : Error}
      → (with_tx codec max_attempts env m eng).0 ≡ err e
      → (with_tx codec max_attempts env m eng).1 ≡ eng
  unfolding with_tx
  with_tx_aborts m eng h = commit-err (m (record { db = eng.db; events = [] })) eng h

  flush-keeps :
      (P : List OutboxMessage → List (String × Event) → Type 0) (keep : Preserved P)
      (bs : List Buffered) (calls : ℕ → Calls) (s : Relay)
      → P s.rows s.sent
      → P
          (flush_buffered_events max_attempts bs calls s).rows
          (flush_buffered_events max_attempts bs calls s).sent
  unfolding flush_buffered_events
  flush-keeps P keep [] calls s h = h
  flush-keeps P keep (b ∷ bs) calls s h =
      flush-keeps P keep bs (λ i. calls (suc i))
        (flush_publish max_attempts (calls 0).publish_error b.outbox_id b.outbox_created_at b.event
          (calls 0) s)
        (flush_publish-keeps P keep max_attempts (calls 0).publish_error b.outbox_id
          b.outbox_created_at b.event (calls 0) s h)

  relayed-keeps :
      (P : List OutboxMessage → List (String × Event) → Type 0) (keep : Preserved P) (s : Relay)
      → P s.rows s.sent
      → P (relayed codec max_attempts env s).rows (relayed codec max_attempts env s).sent
  relayed-keeps P keep s h = elim (Bool-cases env.count_error) [
    | inl uncounted ↦ rw uncounted h
    | inr counts ↦ elim (Bool-cases env.list_error) [
      | inl unlisted ↦ rw (counts, unlisted) h
      | inr lists ↦
          rw (counts, lists)
            (flush_pending_outbox-keeps P keep codec max_attempts env.relay_now
              outbox_flush_batch_size env.relay_calls s h)
    ]
  ]

  -- What the relay keeps holds after the commit, if it holds of the committed rows.
  pub after_commit-keeps :
      (P : List OutboxMessage → List (String × Event) → Type 0) (keep : Preserved P) (db : Db)
      (rows : List OutboxMessage) (persisted : List Buffered) (eng : Engine)
      → P rows eng.sent
      → let eng' = after_commit codec max_attempts env db rows persisted eng in
        P eng'.db.outbox eng'.sent
  unfolding after_commit
  after_commit-keeps P keep db rows persisted eng h =
      relayed-keeps P keep
        (flush_buffered_events max_attempts persisted env.flush_calls
          (record { rows = rows; metrics = eng.metrics; sent = eng.sent }))
        (flush-keeps P keep persisted env.flush_calls
          (record { rows = rows; metrics = eng.metrics; sent = eng.sent }) h)
