-- ===== src/Repository/Messages.antt =====
-- The outbox table of gorm_repository.go: CreateOutboxMessage, CountPendingOutboxMessages,
-- ListPendingOutboxMessages, ClaimOutboxMessage and the three Mark operations.
use flow_go.Prelude.{
  ℕ, ◌+◌, ◌*◌, String, ◌≡◌, Bool, true, false, List, [], ◌∷◌, ◌++◌, Option, none, some, arith,
  eq_iff, leb, ◌==◌, string_eq, filter, take, length, if◌then◌else◌,
}
use flow_go.Prelude.Int.{ℤ, pos, leb_ℤ, pos_part}
use flow_go.Prelude.Sorting.{order_by}
use flow_go.Model.{OutboxStatus, OutboxMessage}

-- time.Second, in nanoseconds.
abbrev pub second : ℕ
second = 1_000_000_000

abbrev pub outbox_processing_lease : ℕ
outbox_processing_lease = 5 * 60 * second

unfoldable pub due : Option ℕ → ℕ → Bool
due none now = true
due (some t) now = leb t now

-- `started <= now - lease`, or the creation time where no start is recorded; the lease is added on
-- the left, since a difference of natural numbers stops at 0.
unfoldable pub stale : Option ℕ → ℕ → ℕ → Bool
stale none created_at now = leb (created_at + outbox_processing_lease) now
stale (some started) created_at now = leb (started + outbox_processing_lease) now

abbrev by_status : OutboxStatus → Bool → Bool → Bool
by_status OutboxStatus.pending is_due is_stale = is_due
by_status OutboxStatus.processing is_due is_stale = is_stale
by_status _ is_due is_stale = false

-- The scope `claimableOutboxMessages(now)`.
unfoldable pub claimable : ℕ → OutboxMessage → Bool
unfolding due stale
claimable now m =
    by_status m.status (due m.next_attempt now) (stale m.processing_started_at m.created_at now)

unfoldable pub count_pending_outbox_messages : ℕ → List OutboxMessage → ℕ
unfolding claimable
count_pending_outbox_messages now rows = length (filter (claimable now) rows)

abbrev outbox_limit : ℤ → ℕ
outbox_limit limit = if leb_ℤ limit (pos 0) then 100 else pos_part limit

unfoldable pub list_pending_outbox_messages : ℕ → ℤ → List OutboxMessage → List OutboxMessage
unfolding claimable
list_pending_outbox_messages now limit rows =
    take (outbox_limit limit) (order_by (λ m. m.created_at) (filter (claimable now) rows))

unfoldable pub create_outbox_message : OutboxMessage → List OutboxMessage → List OutboxMessage
create_outbox_message m rows = rows ++ m ∷ []

unfoldable pub find_message : String → List OutboxMessage → Option OutboxMessage
find_message id [] = none
find_message id (m ∷ ms) = if m.id == id then some m else find_message id ms

-- `Where("id = ?", id).Updates(...)`: `id` is the primary key.
unfoldable pub update_message :
    String → (OutboxMessage → OutboxMessage) → List OutboxMessage → List OutboxMessage
update_message id f [] = []
update_message id f (m ∷ ms) = if m.id == id then f m ∷ ms else m ∷ update_message id f ms

claim_columns : ℕ → OutboxMessage → OutboxMessage
claim_columns claimed_at m = record m {
  status = OutboxStatus.processing;
  attempts = m.attempts + 1;
  last_error = "";
  next_attempt = none;
  processing_started_at = some claimed_at;
}

unfoldable pub claim_if : ℕ → OutboxMessage → OutboxMessage
unfolding claimable claim_columns
claim_if claimed_at m = if claimable claimed_at m then claim_columns claimed_at m else m

abbrev can_claim : ℕ → Option OutboxMessage → Bool
can_claim now none = false
can_claim now (some m) = claimable now m

-- The rows after the conditional update, and whether a row was affected.
unfoldable pub claim_outbox_message : String → ℕ → List OutboxMessage → List OutboxMessage × Bool
unfolding claim_if update_message find_message
claim_outbox_message id claimed_at rows =
    (update_message id (claim_if claimed_at) rows, can_claim claimed_at (find_message id rows))

unfoldable pub publish_failed_columns : String → ℕ → OutboxMessage → OutboxMessage
publish_failed_columns last_error next_attempt m = record m {
  status = OutboxStatus.pending;
  last_error = last_error;
  next_attempt = some next_attempt;
  processing_started_at = none;
}

unfoldable pub terminal_failed_columns : String → ℕ → OutboxMessage → OutboxMessage
terminal_failed_columns last_error failed_at m = record m {
  status = OutboxStatus.failed;
  last_error = last_error;
  next_attempt = none;
  processing_started_at = none;
  published_at = some failed_at;
}

unfoldable pub published_columns : ℕ → OutboxMessage → OutboxMessage
published_columns published_at m = record m {
  status = OutboxStatus.published;
  last_error = "";
  next_attempt = none;
  processing_started_at = none;
  published_at = some published_at;
}

abbrev pub map_message :
    (OutboxMessage → OutboxMessage) → Option OutboxMessage → Option OutboxMessage
map_message f none = none
map_message f (some m) = some (f m)

-- A read after an update by primary key, where the update keeps the key.
pub find_message-update_message :
    (id j : String) (f : OutboxMessage → OutboxMessage) (rows : List OutboxMessage)
    → ((m : OutboxMessage) → (f m).id ≡ m.id)
    → find_message j (update_message id f rows)
      ≡ (if id == j then map_message f (find_message j rows) else find_message j rows)
unfolding find_message update_message
find_message-update_message id j f [] keeps = ground arith
find_message-update_message id j f (m ∷ ms) keeps = ground (
  arith,
  keeps m,
  eq_iff m.id id,
  eq_iff m.id j,
  eq_iff id j,
  find_message-update_message id j f ms keeps,
)
