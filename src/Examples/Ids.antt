-- ===== src/Examples/Ids.antt =====
-- Runs of the Snowflake generator and of the scheduler's lease.
use flow_go.Prelude.{
  ℕ, ◌+◌, ◌*◌, ◌<◌, ◌≤◌, String, ◌≡◌, ◌≢◌, refl, true, false, Option, none, some, arith, eq_iff,
}
use flow_go.Prelude.Int.{pos}
use flow_go.Prelude.Text.{is_empty, trim_space}
use flow_go.Model.{RuntimeSchedulerLease}
use flow_go.Repository.Messages.{second}
use flow_go.Repository.Lease.{ttl_or_default, try_acquire_lease, try_acquire_lease-exclusive}
use flow_go.Snowflake.{Node, epoch, generate}
use flow_go.Snowflake.Unique.{IsValid, Advanced, generate-Advanced, generate_returns}

-- The last id of its millisecond.
abbrev used_up : Node
used_up = record { timestamp = epoch + 5; node = 1; step = 4095 }

abbrev next_node : Node
next_node = record { timestamp = epoch + 6; node = 1; step = 0 }

abbrev ticking : ℕ → ℕ
ticking i = epoch + 5 + i

generate_runs : generate 4 ticking (epoch + 5) used_up ≡ some (next_node, 25_169_920)
unfolding generate
generate_runs = refl

used_up-IsValid : IsValid used_up
used_up-IsValid = record { node_fits = omega arith; step_fits = omega arith }

generate-Advanced_example : Advanced used_up next_node 25_169_920
generate-Advanced_example =
    generate-Advanced 4 ticking (epoch + 5) used_up next_node 25_169_920 used_up-IsValid
      generate_runs (omega arith) (omega arith)

generate_returns_example :
    (n' : Node) × (id : ℕ) × (generate 4 ticking (epoch + 5) used_up ≡ some (n', id))
generate_returns_example =
    generate_returns 4 ticking (epoch + 5) 1 used_up (omega arith) (omega arith)

abbrev lease_of : String → ℕ → Option RuntimeSchedulerLease
lease_of holder t = some (record { holder = holder; expires_at = t + 15 * second; updated_at = t })

acquire_runs : try_acquire_lease "a" (pos 0) 100 none ≡ some (true, lease_of "a" 100)
unfolding try_acquire_lease
acquire_runs = refl

b_is_named : is_empty (trim_space "b") ≡ false
unfolding trim_space
b_is_named = refl

a-is-not-b : ◌≢◌ {A = String} "a" "b"
a-is-not-b h = ground (arith, eq_iff "a" "b")

try_acquire_lease-exclusive_example :
    (200 < 100 + ttl_or_default (pos 0)
      → try_acquire_lease "b" (pos 0) 200 (lease_of "a" 100) ≡ some (false, lease_of "a" 100))
    × (100 + ttl_or_default (pos 0) ≤ 200
        → try_acquire_lease "b" (pos 0) 200 (lease_of "a" 100) ≡ some (true, lease_of "b" 200))
    × (try_acquire_lease "a" (pos 0) 200 (lease_of "a" 100) ≡ some (true, lease_of "a" 200))
try_acquire_lease-exclusive_example =
    try_acquire_lease-exclusive "a" "b" (pos 0) (pos 0) 100 200 none (lease_of "a" 100) acquire_runs
      b_is_named a-is-not-b
