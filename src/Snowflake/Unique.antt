-- ===== src/Snowflake/Unique.antt =====
-- The order of the ids that Generate (backend/libs/id/id.go) returns.
use flow_go.Prelude.{
  ℕ, zero, suc, ◌+◌, ◌%◌, ◌^◌, ◌≤◌, ◌<◌, ◌≡◌, refl, subst, ◌⊎◌, inl, inr, Bool-cases, Option-cases,
  some, arith, ltb, leb, ◌==◌, nat_eq, if◌then◌else◌,
}
use flow_go.Snowflake.{Node, node_max, step_max, epoch, wait_after, compose, issued, generate}

-- What a node keeps: its numbers fit their bits.
pub record IsValid (n : Node) : Type 0 where
  pub node_fits : n.node ≤ node_max
  pub step_fits : n.step ≤ step_max

wait_after_ok :
    (fuel timestamp : ℕ) (clock : ℕ → ℕ) (now t : ℕ)
    → wait_after fuel timestamp clock now ≡ some t
    → timestamp < t
unfolding wait_after
wait_after_ok zero timestamp clock now t h = ground arith
wait_after_ok (suc fuel) timestamp clock now t h =
    ground (arith, wait_after_ok fuel timestamp (λ i. clock (suc i)) (clock 0) t)

wait_after_past :
    (fuel timestamp : ℕ) (clock : ℕ → ℕ) (now : ℕ)
    → timestamp < now
    → wait_after fuel timestamp clock now ≡ some now
unfolding wait_after
wait_after_past zero timestamp clock now h = ground arith
wait_after_past (suc fuel) timestamp clock now h = ground arith

wait_after_ends :
    (fuel timestamp : ℕ) (clock : ℕ → ℕ) (now i : ℕ)
    → i < fuel
    → timestamp < clock i
    → (t : ℕ) × (wait_after fuel timestamp clock now ≡ some t)
unfolding wait_after
wait_after_ends zero timestamp clock now i h later = absurd (omega arith)
wait_after_ends (suc fuel) timestamp clock now zero h later =
    elim (Bool-cases (leb now timestamp)) [
      | inr already ↦ (now, ground arith)
      | inl waits ↦
          (clock 0, ground (arith, wait_after_past fuel timestamp (λ j. clock (suc j)) (clock 0)))
    ]
wait_after_ends (suc fuel) timestamp clock now (suc i) h later =
    elim (Bool-cases (leb now timestamp)) [
      | inr already ↦ (now, ground arith)
      | inl waits ↦
          let (t, e) =
            wait_after_ends fuel timestamp (λ j. clock (suc j)) (clock 0) i (omega arith) later in
          (t, ground arith)
    ]

compose-lt :
    (n : Node) (now step : ℕ)
    → IsValid n
    → step ≤ step_max
    → epoch < now
    → now < epoch + 2 ^ 41
    → ((n.timestamp < now) ⊎ ((n.timestamp ≡ now) × (n.step < step)))
    → compose n.timestamp n < compose now (record n { timestamp = now; step = step })
unfolding compose
compose-lt n now step v s p q (inl later) = omega (arith, v.node_fits, v.step_fits)
compose-lt n now step v s p q (inr (same, more)) = omega (arith, v.node_fits, v.step_fits)

-- What a call leaves: the node's number is kept, its clock does not go back, its sequence number
-- fits 12 bits, and the id is larger than the one before.
pub record Advanced (n n' : Node) (id : ℕ) : Type 0 where
  pub valid : IsValid n'
  pub same_node : n'.node ≡ n.node
  pub forward : n.timestamp ≤ n'.timestamp
  pub last : id ≡ compose n'.timestamp n'
  pub larger : compose n.timestamp n < id

issued_ok :
    (n n' : Node) (step now id : ℕ)
    → IsValid n
    → step ≤ step_max
    → ((n.timestamp < now) ⊎ ((n.timestamp ≡ now) × (n.step < step)))
    → issued n step (some now) ≡ some (n', id)
    → epoch < n'.timestamp
    → n'.timestamp < epoch + 2 ^ 41
    → Advanced n n' id
unfolding issued
issued_ok n n' step now id v s grows h p q =
    let made : record n { timestamp = now; step = step } ≡ n' = ground arith in
    subst (λ (x : Node). Advanced n x id) made
      (record {
        valid = record { node_fits = v.node_fits; step_fits = s };
        same_node = refl;
        forward = elim grows [ inl later ↦ omega arith | inr (same, _) ↦ omega arith ];
        last = ground arith;
        larger = ground (arith, compose-lt n now step v s (ground arith) (ground arith) grows);
      })

-- For a node whose numbers fit their bits, every id is larger than the one that the same node
-- issued before it, as long as the clock shows a time after the epoch and less than 2^41
-- milliseconds later, clock set back or not.
pub generate-Advanced :
    (fuel : ℕ) (clock : ℕ → ℕ) (now : ℕ) (n n' : Node) (id : ℕ)
    → IsValid n
    → generate fuel clock now n ≡ some (n', id)
    → epoch < n'.timestamp
    → n'.timestamp < epoch + 2 ^ 41
    → Advanced n n' id
unfolding generate
generate-Advanced fuel clock now n n' id v h p q =
    let at = (if ltb now n.timestamp then n.timestamp else now) in
    let step = (n.step + 1) % 4096 in
    let fits = v.step_fits in
    elim (Bool-cases (at == n.timestamp)) [
      | inr later ↦ issued_ok n n' 0 at id v (omega arith) (inl (ground arith)) (rw later at h) p q
      | inl same ↦ elim (Bool-cases (step == 0)) [
        | inr more ↦
            issued_ok n n' step at id v (omega arith) (inr (ground arith, ground arith))
              (rw (same, more) at h) p q
        | inl used ↦ elim (Option-cases (wait_after fuel n.timestamp clock at)) [
          | inl gone ↦ cc (rw (same, used, gone, issued) at h)
          | inr (t, e) ↦
              issued_ok n n' step t id v (omega arith)
                (inl (wait_after_ok fuel n.timestamp clock at t e)) (rw (same, used, e) at h) p q
        ]
      ]
    ]

issued_returns :
    (n : Node) (step t : ℕ) → (n' : Node) × (id : ℕ) × (issued n step (some t) ≡ some (n', id))
unfolding issued
issued_returns n step t = (_, _, refl)

-- A call returns as soon as some reading of the clock, within the fuel, is later than the last
-- id's.
pub generate_returns :
    (fuel : ℕ) (clock : ℕ → ℕ) (now i : ℕ) (n : Node)
    → i < fuel
    → n.timestamp < clock i
    → (n' : Node) × (id : ℕ) × (generate fuel clock now n ≡ some (n', id))
unfolding generate
generate_returns fuel clock now i n h later =
    let at = (if ltb now n.timestamp then n.timestamp else now) in
    let step = (n.step + 1) % 4096 in
    let (t, e) = wait_after_ends fuel n.timestamp clock at i h later in
    elim (Bool-cases (at == n.timestamp)) [
      | inr fresh ↦ rw fresh (issued_returns n 0 at)
      | inl same ↦ elim (Bool-cases (step == 0)) [
        | inr more ↦ rw (same, more) (issued_returns n step at)
        | inl used ↦ rw (same, used, e) (issued_returns n step t)
      ]
    ]
