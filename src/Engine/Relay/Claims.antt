-- ===== src/Engine/Relay/Claims.antt =====
-- Who may work on an outbox message: the claim, its lease, and the final states.
use flow_go.Prelude.{
  ℕ, ◌+◌, ◌≤◌, ◌<◌, String, ◌≡◌, refl, inl, inr, true, false, List, [], ◌∷◌, some, arith, ◌==◌,
  string_eq, beq_refl, leb, Option-cases, if◌then◌else◌,
}
use flow_go.Model.{OutboxMessage}
use flow_go.Repository.Messages.{
  claimable, claim_if, claim_outbox_message, find_message, update_message, map_message,
  outbox_processing_lease, find_message-update_message,
}

pub id-claim_if : (t : ℕ) (m : OutboxMessage) → (claim_if t m).id ≡ m.id
unfolding claim_if
id-claim_if t m = ground arith

pub find_message-claim :
    (id j : String) (t : ℕ) (rows : List OutboxMessage)
    → find_message j (claim_outbox_message id t rows).0
      ≡ (if id == j then map_message (claim_if t) (find_message j rows) else find_message j rows)
unfolding claim_outbox_message update_message
find_message-claim id j t rows = find_message-update_message id j (claim_if t) rows (id-claim_if t)

-- The update of a row to what it is already changes nothing.
update_message_same :
    (id : String) (f : OutboxMessage → OutboxMessage) (rows : List OutboxMessage)
    (m : OutboxMessage)
    → find_message id rows ≡ some m
    → f m ≡ m
    → update_message id f rows ≡ rows
unfolding update_message find_message
update_message_same id f [] m h e = refl
update_message_same id f (row ∷ rows) m h e = ground (arith, update_message_same id f rows m)

-- A claim takes a message that is there and claimable, and only such a one.
pub claim_true :
    (id : String) (t : ℕ) (rows : List OutboxMessage)
    → (claim_outbox_message id t rows).1 ≡ true
    → (m : OutboxMessage) × (find_message id rows ≡ some m) × (claimable t m ≡ true)
unfolding claim_outbox_message
claim_true id t rows h = elim (Option-cases (find_message id rows)) [
  | inl e ↦ cc (rw e at h)
  | inr (m, e) ↦ (m, e, rw e at h)
]

claim_at :
    (id : String) (t : ℕ) (rows : List OutboxMessage) (m : OutboxMessage)
    → find_message id rows ≡ some m
    → (claim_outbox_message id t rows).1 ≡ claimable t m
unfolding claim_outbox_message
claim_at id t rows m e = rw e

-- A claim of a message that is not claimable changes no row.
pub claim_not_claimable :
    (id : String) (t : ℕ) (rows : List OutboxMessage) (m : OutboxMessage)
    → find_message id rows ≡ some m
    → claimable t m ≡ false
    → claim_outbox_message id t rows ≡ (rows, false)
unfolding claim_outbox_message claim_if
claim_not_claimable id t rows m e h =
    ground (arith, update_message_same id (claim_if t) rows m e (rw h))

claimable-claim_if :
    (t t' : ℕ) (m : OutboxMessage)
    → claimable t m ≡ true
    → claimable t' (claim_if t m) ≡ leb (t + outbox_processing_lease) t'
unfolding claim_if
claimable-claim_if t t' m h = rw h

-- A claim that succeeded leaves a message that no other claim takes before the lease is over: such
-- a claim reports no row and changes none. From the end of the lease on a claim succeeds.
pub claim_exclusive :
    (id : String) (t t' : ℕ) (rows : List OutboxMessage)
    → (claim_outbox_message id t rows).1 ≡ true
    → let rows' = (claim_outbox_message id t rows).0 in
      (t' < t + outbox_processing_lease → claim_outbox_message id t' rows' ≡ (rows', false))
      × (t + outbox_processing_lease ≤ t' → (claim_outbox_message id t' rows').1 ≡ true)
claim_exclusive id t t' rows h =
    let (m, e, c) = claim_true id t rows h in
    let rows' = (claim_outbox_message id t rows).0 in
    let e' : find_message id rows' ≡ some (claim_if t m) =
      rw (find_message-claim id id t rows, beq_refl id, e) in
    let later = claimable-claim_if t t' m c in
    (
      λ before. claim_not_claimable id t' rows' (claim_if t m) e' (ground (arith, later)),
      λ after. ground (arith, claim_at id t' rows' (claim_if t m) e', later),
    )
