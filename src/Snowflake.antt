-- ===== src/Snowflake.antt =====
-- The Snowflake generator of backend/libs/id/id.go: NewNode and Generate. The mutex makes calls
-- follow one another, so a run of the generator is a sequence of calls. A call reads the clock
-- once, and again and again where its sequence is exhausted: `clock i` is its reading after the
-- first, and the waiting loop runs on fuel.
pub mod Unique
use flow_go.Prelude.{
  ℕ, zero, suc, ◌+◌, ◌-◌, ◌*◌, ◌%◌, ◌^◌, Bool, true, false, ◌&&◌, ◌||◌, Option, none, some, ltb,
  leb, ◌==◌, nat_eq, if◌then◌else◌,
}
use flow_go.Prelude.Int.{ℤ, pos, negsuc, ltb_ℤ, pos_part}

abbrev pub node_max : ℕ
node_max = 1023

abbrev pub step_max : ℕ
step_max = 4095

abbrev pub epoch : ℕ
epoch = 1_704_067_200_000

pub record Node : Type 0 where
  pub timestamp : ℕ
  pub node : ℕ
  pub step : ℕ

-- `none` is the error that the number is out of range.
unfoldable pub new_node : ℤ → Option Node
new_node node =
    if ltb_ℤ node (pos 0) || ltb_ℤ (pos node_max) node
    then none
    else some (record { timestamp = 0; node = pos_part node; step = 0 })

-- `for now <= n.timestamp`; `none` stands for a clock that stays there for too long.
unfoldable pub wait_after : ℕ → ℕ → (ℕ → ℕ) → ℕ → Option ℕ
wait_after zero timestamp clock now = if leb now timestamp then none else some now
wait_after (suc fuel) timestamp clock now =
    let later = wait_after fuel timestamp (λ i. clock (suc i)) (clock 0) in
    if leb now timestamp then later else some now

-- The id as a number of 64 bits. The three parts do not overlap, so `|` is their sum.
unfoldable pub compose : ℕ → Node → ℕ
compose now n = ((now - epoch) * 2 ^ 22 + n.node * 2 ^ 12 + n.step) % 2 ^ 64

issued : Node → ℕ → Option ℕ → Option (Node × ℕ)
unfolding compose
issued n step none = none
issued n step (some now) =
    let n' = record n { timestamp = now; step = step } in some (n', compose now n')

-- `now` is the first reading of the clock.
unfoldable pub generate : ℕ → (ℕ → ℕ) → ℕ → Node → Option (Node × ℕ)
unfolding wait_after issued
generate fuel clock now n =
    let at = if ltb now n.timestamp then n.timestamp else now in
    let step = (n.step + 1) % 4096 in
    if at == n.timestamp
    then (if step == 0
        then issued n step (wait_after fuel n.timestamp clock at)
        else issued n step (some at))
    else issued n 0 (some at)
