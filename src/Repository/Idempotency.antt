-- ===== src/Repository/Idempotency.antt =====
-- The idempotency table of gorm_repository.go: GetIdempotencyRecord, CreateIdempotencyRecord,
-- DeleteIdempotencyRecordsBefore. Its primary key is the pair of key and operation.
use flow_go.Prelude.{
  ℕ, ◌+◌, String, ◌≡◌, Bool, true, false, not, ◌&&◌, ◌||◌, List, [], ◌∷◌, ◌++◌, Option, none, some,
  arith, eq_iff, ltb, ◌==◌, string_eq, filter, take, length, if◌then◌else◌,
}
use flow_go.Prelude.Int.{ℤ, pos, ltb_ℤ, pos_part}
use flow_go.Prelude.Sorting.{order_by}
use flow_go.Model.{IdempotencyRecord}

unfoldable pub has_keys : String → String → IdempotencyRecord → Bool
has_keys key operation r = r.key == key && r.operation == operation

-- `none` is gorm's ErrRecordNotFound, which the repository turns into no record.
unfoldable pub get_idempotency_record :
    String → String → List IdempotencyRecord → Option IdempotencyRecord
unfolding has_keys
get_idempotency_record key operation [] = none
get_idempotency_record key operation (r ∷ rs) =
    if has_keys key operation r then some r else get_idempotency_record key operation rs

abbrev pub is_found : Option IdempotencyRecord → Bool
is_found none = false
is_found (some _) = true

-- An insert that does nothing on a conflict of the primary key.
unfoldable pub create_idempotency_record :
    IdempotencyRecord → List IdempotencyRecord → List IdempotencyRecord
unfolding get_idempotency_record
create_idempotency_record r rows =
    if is_found (get_idempotency_record r.key r.operation rows) then rows else rows ++ r ∷ []

abbrev limited : ℤ → List IdempotencyRecord → List IdempotencyRecord
limited limit rows = if ltb_ℤ (pos 0) limit then take (pos_part limit) rows else rows

-- One `Delete` of the loop, and the number of rows that it affects.
unfoldable pub delete_record : IdempotencyRecord → List IdempotencyRecord → List IdempotencyRecord
unfolding has_keys
delete_record r = filter (λ x. not (has_keys r.key r.operation x))

unfoldable pub affected : IdempotencyRecord → List IdempotencyRecord → ℕ
unfolding has_keys
affected r rows = length (filter (has_keys r.key r.operation) rows)

unfoldable pub delete_records :
    List IdempotencyRecord → List IdempotencyRecord → List IdempotencyRecord × ℕ
unfolding delete_record affected
delete_records [] rows = (rows, 0)
delete_records (r ∷ rs) rows =
    let (left, deleted) = delete_records rs (delete_record r rows) in
    (left, affected r rows + deleted)

-- The rows that are left, and how many were deleted.
unfoldable pub delete_idempotency_records_before :
    ℕ → ℤ → List IdempotencyRecord → List IdempotencyRecord × ℕ
unfolding delete_records
delete_idempotency_records_before cutoff limit rows =
    delete_records
      (limited limit (order_by (λ r. r.created_at) (filter (λ r. ltb r.created_at cutoff) rows)))
      rows

-- A lookup after an insert at the end.
pub get-append :
    (key operation : String) (r : IdempotencyRecord) (rows : List IdempotencyRecord)
    → is_found (get_idempotency_record key operation rows) ≡ true
    → get_idempotency_record key operation (rows ++ r ∷ [])
      ≡ get_idempotency_record key operation rows
unfolding get_idempotency_record
get-append key operation r [] h = cc
get-append key operation r (x ∷ rows) h = ground (arith, get-append key operation r rows)

pub get-append_other :
    (key operation : String) (r : IdempotencyRecord) (rows : List IdempotencyRecord)
    → has_keys key operation r ≡ false
    → get_idempotency_record key operation (rows ++ r ∷ [])
      ≡ get_idempotency_record key operation rows
unfolding get_idempotency_record
get-append_other key operation r [] h = ground arith
get-append_other key operation r (x ∷ rows) h =
    ground (arith, get-append_other key operation r rows)

pub get-append_new :
    (r : IdempotencyRecord) (rows : List IdempotencyRecord)
    → is_found (get_idempotency_record r.key r.operation rows) ≡ false
    → get_idempotency_record r.key r.operation (rows ++ r ∷ []) ≡ some r
unfolding get_idempotency_record has_keys
get-append_new r [] h = ground (arith, eq_iff r.key r.key, eq_iff r.operation r.operation)
get-append_new r (x ∷ rows) h = ground (arith, get-append_new r rows)

-- After an insert, a command is there if it is the one inserted or was there before.
pub found-create :
    (key operation : String) (r : IdempotencyRecord) (rows : List IdempotencyRecord)
    → is_found (get_idempotency_record key operation (create_idempotency_record r rows))
      ≡ (has_keys key operation r || is_found (get_idempotency_record key operation rows))
unfolding create_idempotency_record has_keys
found-create key operation r rows = ground (
  arith,
  eq_iff r.key key,
  eq_iff r.operation operation,
  get-append key operation r rows,
  get-append_other key operation r rows,
  get-append_new r rows,
)
