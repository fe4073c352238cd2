-- ===== src/Engine/Outbox/Delay.antt =====
-- The delay before the next attempt to publish.
use Prim.Native.Nat.{min}
use native.Mathlib.Nat.{pow-le-pow_right, pow-suc}
use flow_go.Prelude.{
  Bool-cases, inl, inr, ltb, leb, suc, if◌then◌else◌, ℕ, ◌+◌, ◌*◌, ◌-◌, ◌^◌, ◌≤◌, ◌<◌, ◌≡◌, ap,
  arith,
}
use flow_go.Repository.Messages.{second}
use flow_go.Engine.Outbox.{outbox_retry_delay, outbox_max_retry_delay, outbox_base_retry_delay}

two_pow_le_256 : (k : ℕ) → k ≤ 8 → 2 ^ k ≤ 256
two_pow_le_256 k h = pow-le-pow_right {n = 2} (omega arith) h

first_attempt : (attempt : ℕ) → attempt - 1 ≡ (if leb attempt 1 then 0 else attempt - 1)
first_attempt attempt = ground arith

-- The doubling, in closed form: the cap on the shift keeps the delay under the cap on the delay.
delay_closed : (attempt : ℕ) → outbox_retry_delay attempt ≡ second * 2 ^ min (attempt - 1) 8
unfolding outbox_retry_delay
delay_closed attempt = elim (Bool-cases (ltb 8 (attempt - 1))) [
  | inl far ↦ let e : min (attempt - 1) 8 ≡ 8 = ground arith in rw (e, far) (ground arith)
  | inr near ↦
      let e : min (attempt - 1) 8 ≡ attempt - 1 = ground arith in
      rw (e, near)
        (ground
          (arith, two_pow_le_256 (attempt - 1), ap (λ (k : ℕ). 2 ^ k) (first_attempt attempt)))
]

doubles :
    (attempt : ℕ)
    → 1 ≤ attempt
    → attempt < 9
    → outbox_retry_delay (attempt + 1) ≡ 2 * outbox_retry_delay attempt
doubles attempt p q =
    let e : min (attempt + 1 - 1) 8 ≡ suc (min (attempt - 1) 8) = omega arith in
    rw (delay_closed (attempt + 1), delay_closed attempt, e)
      (omega (arith, pow-suc 2 (min (attempt - 1) 8)))

-- The delay is never below one second, never above 256 seconds, so that its five minute maximum is
-- never reached, it does not fall from one attempt to a later one, and it doubles up to attempt 9.
pub outbox_retry_delay_bounds :
    (attempt later : ℕ)
    → attempt ≤ later
    → (outbox_base_retry_delay ≤ outbox_retry_delay attempt)
      × (outbox_retry_delay attempt ≤ 256 * second)
      × (outbox_retry_delay attempt < outbox_max_retry_delay)
      × (outbox_retry_delay attempt ≤ outbox_retry_delay later)
      × (1 ≤ attempt
          → attempt < 9
          → outbox_retry_delay (attempt + 1) ≡ 2 * outbox_retry_delay attempt)
outbox_retry_delay_bounds attempt later h =
    let a = min (attempt - 1) 8 in
    let b = min (later - 1) 8 in
    let small = two_pow_le_256 a (omega arith) in
    let positive : 1 ≤ 2 ^ a = pow-le-pow_right {n = 2} (omega arith) {i = 0} (omega arith) in
    let grows : 2 ^ a ≤ 2 ^ b = pow-le-pow_right {n = 2} (omega arith) (omega arith) in
    (
      rw (delay_closed attempt) (omega arith),
      rw (delay_closed attempt) (omega arith),
      rw (delay_closed attempt) (omega arith),
      rw (delay_closed attempt, delay_closed later) (omega arith),
      λ p q. doubles attempt p q,
    )
