-- ===== src/Timers/Schedule/Interval.antt =====
-- Re-arming: the interval that is read again from a step's properties when its timer fires.
use flow_go.Prelude.{
  ℕ, String, ◌≡◌, ◌≢◌, Bool, true, false, not, Option, none, some, arith, inl, inr, Bool-cases,
  if◌then◌else◌,
}
use flow_go.Prelude.Int.{ℤ, pos, negsuc}
use flow_go.Prelude.Text.{trim_space, is_empty}
use flow_go.Model.Value.{Variables, text_at}
use flow_go.Timers.Schedule.{
  Clock, TimerSchedule, cut, atoi, starts_with, tail, repeated, counted, cut_cycle, cycle_rest,
  once, once_after, interval_or, parse_iso8601_duration, parse_iso8601_cycle, parse_absolute_time,
  resolve_duration, resolve_timer_schedule, resolve_texts, interval_of_texts,
  cycle_interval_from_props,
}

module _ (clock : Clock) (default : ℤ) (now later : ℕ) (s : TimerSchedule) where
  repeated-interval :
      (n : ℤ) (d : Option ℤ)
      → repeated n now d ≡ some s
      → interval_or default (repeated n later d) ≡ s.interval
  repeated-interval n d h = ground arith

  cut_cycle-interval :
      (parts : Option (String × String))
      → cut_cycle clock now parts ≡ some s
      → interval_or default (cut_cycle clock later parts) ≡ s.interval
  unfolding cut_cycle
  cut_cycle-interval none h = ground arith
  cut_cycle-interval (some (count, interval)) h =
      counted-interval (atoi count) (parse_iso8601_duration clock interval) h
    where
      counted-interval :
          (n d : Option ℤ)
          → counted now n d ≡ some s
          → interval_or default (counted later n d) ≡ s.interval
      counted-interval n d h = ground arith

  cycle_rest-interval :
      (rest : String)
      → cycle_rest clock rest now ≡ some s
      → interval_or default (cycle_rest clock rest later) ≡ s.interval
  unfolding cycle_rest
  cycle_rest-interval rest h = elim (Bool-cases (starts_with 47 rest)) [
    | inl _ ↦
        ground (arith, repeated-interval (negsuc 0) (parse_iso8601_duration clock (tail rest)))
    | inr _ ↦ ground (arith, cut_cycle-interval (cut 47 rest))
  ]

  cycle-interval :
      (cycle : String)
      → parse_iso8601_cycle clock cycle now ≡ some s
      → interval_or default (parse_iso8601_cycle clock cycle later) ≡ s.interval
  unfolding parse_iso8601_cycle
  cycle-interval cycle h = ground (arith, cycle_rest-interval (tail (trim_space cycle)))

module _ (clock : Clock) where
  -- `s` repeats: it is no one-shot schedule.
  once-repeat_count :
      (due : Option ℕ) (s : TimerSchedule) → once due ≡ some s → s.repeat_count ≡ pos 1
  once-repeat_count due s h = ground arith

  once_after-repeat_count :
      (now : ℕ) (d : Option ℤ) (s : TimerSchedule)
      → once_after now d ≡ some s
      → s.repeat_count ≡ pos 1
  once_after-repeat_count now d s h = ground arith

  resolve_duration-repeats :
      (text : String) (now : ℕ) (s : TimerSchedule)
      → resolve_duration clock text now ≡ some s
      → s.repeat_count ≢ pos 1
      → (starts_with 82 text ≡ true) × (parse_iso8601_cycle clock text now ≡ some s)
  unfolding resolve_duration
  resolve_duration-repeats text now s h k = ground (
    arith,
    once-repeat_count (parse_absolute_time clock text) s,
    once_after-repeat_count now (parse_iso8601_duration clock text) s,
  )

  pick-interval :
      (no_cycle no_date : Bool) (by_cycle by_date by_duration : Option TimerSchedule) (i j : ℤ)
      (s : TimerSchedule)
      → (by_cycle ≡ some s → i ≡ s.interval)
      → by_date ≢ some s
      → (by_duration ≡ some s → j ≡ s.interval)
      → (if not no_cycle then by_cycle else if not no_date then by_date else by_duration) ≡ some s
      → (if not no_cycle then i else j) ≡ s.interval
  pick-interval false no_date by_cycle by_date by_duration i j s f g h e = f e
  pick-interval true false by_cycle by_date by_duration i j s f g h e = absurd (g e)
  pick-interval true true by_cycle by_date by_duration i j s f g h e = h e

  duration-interval :
      (duration : String) (now later : ℕ) (s : TimerSchedule)
      → s.repeat_count ≢ pos 1
      → resolve_duration clock duration now ≡ some s
      → (if starts_with 82 duration
          then interval_or (pos 0) (parse_iso8601_cycle clock duration later)
          else pos 0)
        ≡ s.interval
  duration-interval duration now later s k h = ground (
    arith,
    resolve_duration-repeats duration now s,
    cycle-interval clock (pos 0) now later s duration,
  )

  resolve_texts-interval :
      (cycle date duration : String) (now later : ℕ) (s : TimerSchedule)
      → resolve_texts clock cycle date duration now ≡ some s
      → s.repeat_count ≢ pos 1
      → interval_of_texts clock cycle duration later ≡ s.interval
  unfolding resolve_texts interval_of_texts
  resolve_texts-interval cycle date duration now later s h k =
      let rest =
        (if starts_with 82 duration
          then interval_or (pos 0) (parse_iso8601_cycle clock duration later)
          else pos 0) in
      pick-interval (is_empty cycle) (is_empty date) (parse_iso8601_cycle clock cycle now)
        (once (parse_absolute_time clock date)) (resolve_duration clock duration now)
        (interval_or rest (parse_iso8601_cycle clock cycle later)) rest s
        (cycle-interval clock rest now later s cycle)
        (λ e. k (once-repeat_count (parse_absolute_time clock date) s e))
        (duration-interval duration now later s k) h

  -- If a step's timer properties resolve to a schedule that repeats (its count is not 1), then the
  -- interval that a firing of the timer reads again from these properties, at any later time, is
  -- the interval of that schedule.
  pub resolve-cycle_interval :
      (props : Option Variables) (now later : ℕ) (s : TimerSchedule)
      → resolve_timer_schedule clock props now ≡ some s
      → s.repeat_count ≢ pos 1
      → cycle_interval_from_props clock props later ≡ s.interval
  unfolding resolve_timer_schedule cycle_interval_from_props
  resolve-cycle_interval none now later s h k = ground arith
  resolve-cycle_interval (some props) now later s h k =
      resolve_texts-interval (trim_space (text_at "timer_cycle" props))
        (trim_space (text_at "timer_date" props)) (trim_space (text_at "timer_duration" props)) now
        later s h k
