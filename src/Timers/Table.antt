-- ===== src/Timers/Table.antt =====
-- Firing and cancelling the timers of an element instance (finalizeTimerAfterFire and
-- cancelCreatedTimersForElementInstance of events.go).
pub mod Firing
pub mod Cancelling
use flow_go.Prelude.{ℕ, Bool, true, false, List, [], ◌∷◌, Option, ◌&&◌, nat_beq, if◌then◌else◌}
use flow_go.Prelude.Int.{ℤ, pos, negsuc, ◌-ℤ◌, ltb_ℤ, leb_ℤ}
use flow_go.Model.{TimerState, Timer}
use flow_go.Model.Value.{Variables}
use flow_go.Repository.Timers.{update_timer, list_created_timers}
use flow_go.Timers.Schedule.{Clock, add_time, cycle_interval_from_props}

triggered_timer : Timer → Timer
triggered_timer t = record t { state = TimerState.triggered }

armed_timer : ℕ → ℤ → ℤ → Timer → Timer
armed_timer now interval count t = record t {
  due_date = add_time now interval;
  state = TimerState.created;
  repeat_count = count;
}

-- The timer that a firing leaves, with the interval read from the step.
unfoldable pub fired_timer : ℕ → ℤ → Timer → Timer
unfolding triggered_timer armed_timer
fired_timer now interval t =
    if ltb_ℤ t.repeat_count (pos 0)
    then if leb_ℤ interval (pos 0)
      then triggered_timer t
      else armed_timer now interval t.repeat_count t
    else if ltb_ℤ (pos 1) t.repeat_count && ltb_ℤ (pos 0) interval
    then armed_timer now interval (t.repeat_count -ℤ pos 1) t
    else record t { state = TimerState.triggered; repeat_count = pos 0 }

unfoldable pub finalize_timer_after_fire :
    Clock → ℕ → Timer → Option Variables → List Timer → List Timer
unfolding fired_timer update_timer
finalize_timer_after_fire clock now t props rows =
    update_timer (fired_timer now (cycle_interval_from_props clock props now) t) rows

-- The loop of `cancelCreatedTimersForElementInstance`, whose updates' errors are dropped.
unfoldable pub cancel_each : List Timer → List Timer → List Timer
unfolding update_timer
cancel_each [] rows = rows
cancel_each (t ∷ ts) rows =
    cancel_each ts (update_timer (record t { state = TimerState.canceled }) rows)

unfoldable pub cancel_created_timers : ℕ → List Timer → List Timer
unfolding cancel_each list_created_timers
cancel_created_timers element_instance_key rows =
    if nat_beq element_instance_key 0
    then rows
    else cancel_each (list_created_timers element_instance_key rows) rows
