-- ===== src/Timers/Schedule.antt =====
-- Resolving timer properties (timer_schedule.go): ISO 8601 cycles, instants and durations.
pub mod Interval
use Prim.Native.Char.{Char, code}
use Prim.Native.String.{char_at}
use flow_go.Prelude.{
  ℕ, ◌+◌, ◌-◌, ◌*◌, ◌^◌, String, Bool, true, false, not, ◌&&◌, List, [], ◌∷◌, Option, none, some,
  ltb, leb, nat_beq, if◌then◌else◌,
}
use flow_go.Prelude.Int.{ℤ, pos, negsuc, ltb_ℤ}
use flow_go.Prelude.Text.{trim_space, is_empty}
use flow_go.Model.Value.{Variables, text_at}

-- `time.ParseDuration`, in nanoseconds, and `time.Parse` with a layout.
pub record Clock : Type 0 where
  pub parse_duration : String → Option ℤ
  pub parse_time : String → String → Option ℕ

pub record TimerSchedule : Type 0 where
  pub due_date : ℕ
  pub interval : ℤ
  pub repeat_count : ℤ

-- `t.Add(d)`, which stops at Go's zero time.
abbrev pub add_time : ℕ → ℤ → ℕ
add_time t (pos d) = t + d
add_time t (negsuc d) = t - d - 1

abbrev pub prepend : Char → Option (String × String) → Option (String × String)
prepend c none = none
prepend c (some (before, after)) = some (String.◌∷◌ c before, after)

-- `strings.IndexByte`, as the text before the first such character and the text after it.
unfoldable pub cut : ℕ → String → Option (String × String)
cut char String.[] = none
cut char (String.◌∷◌ c s) =
    let rest = cut char s in if nat_beq (code c) char then some ("", s) else prepend c rest

abbrev pub starts_with : ℕ → String → Bool
starts_with char String.[] = false
starts_with char (String.◌∷◌ c s) = nat_beq (code c) char

abbrev pub tail : String → String
tail String.[] = ""
tail (String.◌∷◌ c s) = s

abbrev pub lower_char : Char → Char
lower_char c =
    if leb 65 (code c) && leb (code c) 90
    then char_at "abcdefghijklmnopqrstuvwxyz" (code c - 65)
    else c

unfoldable pub lower : String → String
lower String.[] = ""
lower (String.◌∷◌ c s) = String.◌∷◌ (lower_char c) (lower s)

abbrev pub digits_from : ℕ → String → Option ℕ
digits_from n String.[] = some n
digits_from n (String.◌∷◌ c s) =
    let rest = digits_from (n * 10 + (code c - 48)) s in
    if leb 48 (code c) && leb (code c) 57 then rest else none

abbrev pub digits : String → Option ℕ
digits s = if is_empty s then none else digits_from 0 s

abbrev pub positive : Option ℕ → Option ℤ
positive none = none
positive (some n) = if ltb n (2 ^ 63) then some (pos n) else none

abbrev pub negative : Option ℕ → Option ℤ
negative none = none
negative (some ℕ.zero) = some (pos 0)
negative (some (ℕ.suc n)) = if ltb n (2 ^ 63) then some (negsuc n) else none

-- `strconv.Atoi`: a sign, decimal digits, and the range of 64 bits.
unfoldable pub atoi : String → Option ℤ
atoi s =
    if starts_with 45 s
    then negative (digits (tail s))
    else if starts_with 43 s
    then positive (digits (tail s))
    else positive (digits s)

abbrev pub repeated : ℤ → ℕ → Option ℤ → Option TimerSchedule
repeated n now none = none
repeated n now (some interval) =
    some (record { due_date = add_time now interval; interval = interval; repeat_count = n })

abbrev pub counted : ℕ → Option ℤ → Option ℤ → Option TimerSchedule
counted now none interval = none
counted now (some n) interval = if ltb_ℤ n (pos 1) then none else repeated n now interval

abbrev pub or_else : Option ℕ → Option ℕ → Option ℕ
or_else none other = other
or_else (some t) other = some t

abbrev pub once : Option ℕ → Option TimerSchedule
once none = none
once (some due) = some (record { due_date = due; interval = pos 0; repeat_count = pos 1 })

abbrev pub once_after : ℕ → Option ℤ → Option TimerSchedule
once_after now none = none
once_after now (some d) =
    some (record { due_date = add_time now d; interval = d; repeat_count = pos 1 })

abbrev pub first_of : Option TimerSchedule → Option TimerSchedule → Option TimerSchedule
first_of none other = other
first_of (some s) other = some s

abbrev pub interval_or : ℤ → Option TimerSchedule → ℤ
interval_or default none = default
interval_or default (some s) = s.interval

module _ (clock : Clock) where
  unfoldable pub after_pt : String → Option ℤ
  unfolding lower
  after_pt String.[] = none
  after_pt (String.◌∷◌ t s) = if nat_beq (code t) 84 then clock.parse_duration (lower s) else none

  -- `PT`, and the rest in lower case.
  unfoldable pub parse_iso8601_duration : String → Option ℤ
  unfolding after_pt
  parse_iso8601_duration String.[] = none
  parse_iso8601_duration (String.◌∷◌ p s) = if nat_beq (code p) 80 then after_pt s else none

  unfoldable pub cut_cycle : ℕ → Option (String × String) → Option TimerSchedule
  unfolding parse_iso8601_duration atoi
  cut_cycle now none = none
  cut_cycle now (some (count, interval)) =
      counted now (atoi count) (parse_iso8601_duration interval)

  -- The text after `R`.
  unfoldable pub cycle_rest : String → ℕ → Option TimerSchedule
  unfolding parse_iso8601_duration cut cut_cycle
  cycle_rest rest now =
      if starts_with 47 rest
      then repeated (negsuc 0) now (parse_iso8601_duration (tail rest))
      else cut_cycle now (cut 47 rest)

  unfoldable pub parse_iso8601_cycle : String → ℕ → Option TimerSchedule
  unfolding trim_space cycle_rest
  parse_iso8601_cycle cycle now =
      let trimmed = trim_space cycle in
      if starts_with 82 trimmed then cycle_rest (tail trimmed) now else none

  unfoldable pub parse_absolute_time : String → Option ℕ
  unfolding trim_space
  parse_absolute_time value =
      let trimmed = trim_space value in
      if is_empty trimmed
      then none
      else or_else (clock.parse_time "2006-01-02T15:04:05Z07:00" trimmed) (
          or_else (clock.parse_time "2006-01-02T15:04:05.999999999Z07:00" trimmed)
            (clock.parse_time "2006-01-02T15:04:05" trimmed))

  -- The property `timer_duration`, which may hold a cycle, an instant or a duration.
  unfoldable pub resolve_duration : String → ℕ → Option TimerSchedule
  unfolding parse_iso8601_cycle parse_absolute_time parse_iso8601_duration
  resolve_duration text now =
      if is_empty text
      then none
      else if starts_with 82 text
      then parse_iso8601_cycle text now
      else first_of (once (parse_absolute_time text)) (once_after now (parse_iso8601_duration text))

  -- The trimmed texts of the three properties, in the order in which they are tried.
  unfoldable pub resolve_texts : String → String → String → ℕ → Option TimerSchedule
  unfolding parse_iso8601_cycle parse_absolute_time resolve_duration
  resolve_texts cycle date duration now =
      if not (is_empty cycle)
      then parse_iso8601_cycle cycle now
      else if not (is_empty date)
      then once (parse_absolute_time date)
      else resolve_duration duration now

  unfoldable pub resolve_timer_schedule : Option Variables → ℕ → Option TimerSchedule
  unfolding text_at trim_space resolve_texts
  resolve_timer_schedule none now = none
  resolve_timer_schedule (some props) now =
      resolve_texts (trim_space (text_at "timer_cycle" props))
        (trim_space (text_at "timer_date" props)) (trim_space (text_at "timer_duration" props)) now

  unfoldable pub interval_of_texts : String → String → ℕ → ℤ
  unfolding parse_iso8601_cycle
  interval_of_texts cycle duration now =
      let rest =
        (if starts_with 82 duration
          then interval_or (pos 0) (parse_iso8601_cycle duration now)
          else pos 0) in
      if not (is_empty cycle) then interval_or rest (parse_iso8601_cycle cycle now) else rest

  unfoldable pub cycle_interval_from_props : Option Variables → ℕ → ℤ
  unfolding text_at trim_space interval_of_texts
  cycle_interval_from_props none now = pos 0
  cycle_interval_from_props (some props) now =
      interval_of_texts (trim_space (text_at "timer_cycle" props))
        (trim_space (text_at "timer_duration" props)) now
