-- ===== src/Repository/Lease.antt =====
-- The runtime scheduler's lease: TryAcquireRuntimeSchedulerLease of gorm_repository.go, whose
-- single statement inserts the lease, or takes it over where it has expired or has the same holder.
use flow_go.Prelude.{
  ℕ, ◌+◌, ◌*◌, ◌≤◌, ◌<◌, String, ◌≡◌, ◌≢◌, Bool, true, false, ◌||◌, Option, none, some, arith,
  eq_iff, leb, ◌==◌, string_eq, if◌then◌else◌,
}
use flow_go.Prelude.Int.{ℤ, pos, leb_ℤ, pos_part}
use flow_go.Prelude.Text.{is_empty, trim_space}
use flow_go.Model.{RuntimeSchedulerLease}
use flow_go.Repository.Messages.{second}

abbrev pub ttl_or_default : ℤ → ℕ
ttl_or_default ttl = if leb_ℤ ttl (pos 0) then 15 * second else pos_part ttl

-- Whether the statement affects the row.
unfoldable pub may_take : String → ℕ → Option RuntimeSchedulerLease → Bool
may_take holder now none = true
may_take holder now (some lease) = leb lease.expires_at now || lease.holder == holder

-- `none` is the error that the holder has no name; otherwise, whether the lease was acquired, and
-- the table's row afterwards.
unfoldable pub try_acquire_lease :
    String → ℤ → ℕ → Option RuntimeSchedulerLease → Option (Bool × Option RuntimeSchedulerLease)
unfolding may_take trim_space
try_acquire_lease holder ttl now lease =
    if is_empty (trim_space holder)
    then none
    else if may_take holder now lease
    then some (
      true,
      some (record { holder = holder; expires_at = now + ttl_or_default ttl; updated_at = now }),
    )
    else some (false, lease)

-- There is a single scheduler: once a holder has acquired the lease, another one with a name is
-- turned away and changes nothing until the lease is over, and gets it from then on; the holder
-- itself may renew it at any time.
pub try_acquire_lease-exclusive :
    (holder other : String) (ttl ttl' : ℤ) (now t : ℕ) (lease lease' : Option RuntimeSchedulerLease)
    → try_acquire_lease holder ttl now lease ≡ some (true, lease')
    → is_empty (trim_space other) ≡ false
    → holder ≢ other
    → (t < now + ttl_or_default ttl → try_acquire_lease other ttl' t lease' ≡ some (false, lease'))
      × (now + ttl_or_default ttl ≤ t
          → try_acquire_lease other ttl' t lease'
            ≡ some (
              true,
              some
                  (record { holder = other; expires_at = t + ttl_or_default ttl'; updated_at = t }),
            ))
      × (try_acquire_lease holder ttl' t lease'
          ≡ some (
            true,
            some (record { holder = holder; expires_at = t + ttl_or_default ttl'; updated_at = t }),
          ))
unfolding try_acquire_lease may_take
try_acquire_lease-exclusive holder other ttl ttl' now t lease lease' h named differ = (
  λ before. ground (arith, eq_iff holder other),
  λ after. ground (arith, eq_iff holder other),
  ground (arith, eq_iff holder holder),
)
