-- ===== src/Examples/Timers.antt =====
-- Timers: a cycle of three that is read from a step, fired and cancelled.
use flow_go.Prelude.{
  ℕ, ◌-◌, ◌<◌, ◌≡◌, refl, List, [], ◌∷◌, map, length, Option, none, some, arith, ◌==◌, string_eq,
  if◌then◌else◌,
}
use flow_go.Prelude.Int.{pos}
use flow_go.Model.{TimerState, Timer}
use flow_go.Model.Value.{Value, Variables}
use flow_go.Timers.Schedule.{
  Clock, TimerSchedule, resolve_timer_schedule, cycle_interval_from_props,
}
use flow_go.Timers.Schedule.Interval.{resolve-cycle_interval}
use flow_go.Timers.Table.{cancel_created_timers}
use flow_go.Timers.Table.Cancelling.{cancelled_row, cancel-map}
use flow_go.Timers.Table.Firing.{fired_at, fired_at-count}

-- A reader of the one duration `10s`, and of no instant.
abbrev seconds_reader : Clock
seconds_reader = record {
  parse_duration = λ s. if s == "10s" then some (pos 10) else none;
  parse_time = λ layout s. none;
}

abbrev three_times : Option Variables
three_times = some (("timer_cycle", Value.text " R3/PT10S ") ∷ [])

abbrev every_ten : TimerSchedule
every_ten = record { due_date = 110; interval = pos 10; repeat_count = pos 3 }

three_times_resolves : resolve_timer_schedule seconds_reader three_times 100 ≡ some every_ten
unfolding resolve_timer_schedule
three_times_resolves = refl

resolve-cycle_interval_example : cycle_interval_from_props seconds_reader three_times 250 ≡ pos 10
resolve-cycle_interval_example =
    resolve-cycle_interval seconds_reader three_times 100 250 every_ten three_times_resolves
      (λ h. cc h)

abbrev reminder : Timer
reminder = record {
  key = 1;
  id = "t";
  element_instance_key = 4;
  process_instance_key = 3;
  element_id = "remind";
  due_date = 110;
  state = TimerState.created;
  repeat_count = pos 3;
  created_at = 100;
}

abbrev other_reminder : Timer
other_reminder = record reminder { key = 2; element_instance_key = 5 }

cancel-map_example :
    cancel_created_timers 4 (reminder ∷ other_reminder ∷ [])
    ≡ map (cancelled_row 4) (reminder ∷ other_reminder ∷ [])
cancel-map_example =
    cancel-map 4 (reminder ∷ other_reminder ∷ []) ((refl, tt), (tt, tt)) (λ h. omega arith)

abbrev two_firings : List ℕ
two_firings = 110 ∷ 121 ∷ []

fired_at-count_example :
    (length two_firings < 3
      → ((fired_at two_firings (pos 10) reminder).state ≡ TimerState.created)
        × ((fired_at two_firings (pos 10) reminder).repeat_count ≡ pos (3 - length two_firings)))
    × (length two_firings ≡ 3
        → ((fired_at two_firings (pos 10) reminder).state ≡ TimerState.triggered)
          × ((fired_at two_firings (pos 10) reminder).repeat_count ≡ pos 0))
fired_at-count_example = fired_at-count 10 (omega arith) two_firings 2 reminder refl refl
