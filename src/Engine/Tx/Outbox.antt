-- ===== src/Engine/Tx/Outbox.antt =====
-- The outbox across a whole transaction of the engine.
use flow_go.Prelude.{
  ℕ, suc, String, ◌≡◌, refl, subst, sym, List, [], ◌∷◌, ◌++◌, none, arith, inl, inr, ◌⊎◌,
}
use flow_go.Model.{OutboxMessage}
use flow_go.Model.Event.{Event}
use flow_go.Repository.Messages.{find_message}
use flow_go.Engine.Codec.{Codec}
use flow_go.Engine.Relay.Delivery.{Delivered, Delivered-Preserved}
use flow_go.Engine.Tx.{
  Error, Result, ok, err, Session, Tx, Buffered, new_message, persist_buffered_events, TxEnv,
  Engine, with_tx, after_commit,
}
use flow_go.Engine.Tx.Atomic.{with_tx_aborts, commit-ok, after_commit-keeps}
use flow_go.Engine.Tx.Stored.{
  IsStored, AllStored, IsStored-Preserved, persist_stores, first_persisted, find_message-append,
}

abbrev pub start : Engine → Session
start eng = record { db = eng.db; events = [] }

module _ (codec : Codec) (max_attempts : ℕ) (env : TxEnv) where
  -- `commit-ok` at the session that the action is known to end in.
  with_tx_session :
      {A : Type 0} (m : Tx A) (eng : Engine) (a b : A) (s : Session)
      → m (start eng) ≡ ok (a, s)
      → (with_tx codec max_attempts env m eng).0 ≡ ok b
      → (rows : List OutboxMessage) × (persisted : List Buffered) × (persist_buffered_events codec
            env.uuids env.times s.events s.db.outbox
          ≡ ok (rows, persisted))
        × ((with_tx codec max_attempts env m eng).1
            ≡ after_commit codec max_attempts env s.db rows persisted eng)
  unfolding with_tx
  with_tx_session m eng a b s e h =
      let (s', rows, persisted, q, p, after) =
        commit-ok codec max_attempts env (m (start eng)) eng h in
      let same : s' ≡ s = cc (q, e) in (rows, persisted, rw same at p, rw same at after)

  AllStored-after_commit :
      (es : List Event) (uuids : ℕ → String) (s : Session) (rows : List OutboxMessage)
      (persisted : List Buffered) (eng : Engine)
      → AllStored codec uuids es rows
      → AllStored codec uuids es
          (after_commit codec max_attempts env s.db rows persisted eng).db.outbox
  AllStored-after_commit [] uuids s rows persisted eng h = tt
  AllStored-after_commit (e ∷ es) uuids s rows persisted eng (h, rest) = (
    after_commit-keeps codec max_attempts env (λ rs sent. IsStored codec (uuids 0) e rs)
        (IsStored-Preserved codec (uuids 0) e) s.db rows persisted eng h,
    AllStored-after_commit es (λ i. uuids (suc i)) s rows persisted eng rest,
  )

-- No event of a committed transaction is lost. If the action ended in the session `s` and the
-- transaction committed, then each event that `s` buffered has a row in the outbox, under the id
-- that was drawn for it, and the row decodes to that event, whatever the publisher, the marking of
-- rows and the relay cycle answered after the commit. The ids drawn must be new and distinct.
pub with_tx_stores :
    (codec : Codec) (max_attempts : ℕ) (env : TxEnv) {A : Type 0} (m : Tx A) (eng : Engine)
    (a b : A) (s : Session)
    → m (start eng) ≡ ok (a, s)
    → (with_tx codec max_attempts env m eng).0 ≡ ok b
    → ((i : ℕ) → find_message (env.uuids i) s.db.outbox ≡ none)
    → ((i j : ℕ) → env.uuids i ≡ env.uuids j → i ≡ j)
    → AllStored codec env.uuids s.events (with_tx codec max_attempts env m eng).1.db.outbox
with_tx_stores codec max_attempts env m eng a b s e h fresh distinct =
    let (rows, persisted, p, after) = with_tx_session codec max_attempts env m eng a b s e h in
    let stored = persist_stores codec s.events env.uuids env.times s.db.outbox p fresh distinct in
    subst (λ (x : Engine). AllStored codec env.uuids s.events x.db.outbox) (sym after)
      (AllStored-after_commit codec max_attempts env s.events env.uuids s rows persisted eng stored)

-- A new row is pending, so writing it marks nothing as published.
Delivered-append :
    (e : Event) (payload : List ℕ) (id : String) (at : ℕ) (rows : List OutboxMessage)
    (sent : List (String × Event))
    → Delivered rows sent
    → Delivered (rows ++ new_message e payload id at ∷ []) sent
Delivered-append e payload id at rows sent h = record {
  at =
      λ j m f p. ground (arith, find_message-append j rows (new_message e payload id at), h.at j m);
}

module _ (codec : Codec) where
  Delivered-persist :
      (es : List Event) (uuids : ℕ → String) (times : ℕ → ℕ) (rows : List OutboxMessage)
      (sent : List (String × Event)) {rows' : List OutboxMessage} {ps : List Buffered}
      → persist_buffered_events codec uuids times es rows ≡ ok (rows', ps)
      → Delivered rows sent
      → Delivered rows' sent
  unfolding persist_buffered_events
  Delivered-persist [] uuids times rows sent h d =
      subst (λ (x : List OutboxMessage). Delivered x sent) (ground arith) d
  Delivered-persist (e ∷ es) uuids times rows sent h d =
      let later = persist_buffered_events codec (λ i. uuids (suc i)) (λ i. times (suc i)) es in
      let (payload, ps', m, h') =
        first_persisted e (codec.marshal e) (uuids 0) (times 0) later rows h in
      Delivered-persist es (λ i. uuids (suc i)) (λ i. times (suc i))
        (rows ++ new_message e payload (uuids 0) (times 0) ∷ []) sent h'
        (Delivered-append e payload (uuids 0) (times 0) rows sent d)

abbrev pub IsSound : Engine → Type 0
IsSound eng = Delivered eng.db.outbox eng.sent

Result-cases {ℓ} :
    {A : Type ℓ} (r : Result A) → ((a : A) × (r ≡ ok a)) ⊎ ((e : Error) × (r ≡ err e))
Result-cases (ok a) = inl (a, refl)
Result-cases (err e) = inr (e, refl)

committed-IsSound :
    (codec : Codec) (max_attempts : ℕ) (env : TxEnv) {A : Type 0} (m : Tx A) (eng : Engine) (b : A)
    → ((a : A) (s : Session) → m (start eng) ≡ ok (a, s) → s.db.outbox ≡ eng.db.outbox)
    → (with_tx codec max_attempts env m eng).0 ≡ ok b
    → IsSound eng
    → IsSound (with_tx codec max_attempts env m eng).1
unfolding with_tx
committed-IsSound codec max_attempts env m eng b untouched h d =
    let (s, rows, persisted, q, p, after) =
      commit-ok codec max_attempts env (m (start eng)) eng h in
    let same = untouched b s q in
    let written =
      Delivered-persist codec s.events env.uuids env.times s.db.outbox eng.sent p
        (subst (λ (x : List OutboxMessage). Delivered x eng.sent) (sym same) d) in
    subst IsSound (sym after) (
      after_commit-keeps codec max_attempts env Delivered Delivered-Preserved s.db rows persisted
        eng written)

-- Nothing is marked as published before it was sent. If every message that is marked as published
-- was accepted by the publisher before a transaction whose action leaves the outbox alone, then so
-- it is after the transaction, committed or not.
pub with_tx-IsSound :
    (codec : Codec) (max_attempts : ℕ) (env : TxEnv) {A : Type 0} (m : Tx A) (eng : Engine)
    → ((a : A) (s : Session) → m (start eng) ≡ ok (a, s) → s.db.outbox ≡ eng.db.outbox)
    → IsSound eng
    → IsSound (with_tx codec max_attempts env m eng).1
with_tx-IsSound codec max_attempts env m eng untouched d =
    elim (Result-cases (with_tx codec max_attempts env m eng).0) [
      | inr (x, e) ↦ rw (with_tx_aborts codec max_attempts env m eng e) d
      | inl (b, h) ↦ committed-IsSound codec max_attempts env m eng b untouched h d
    ]
