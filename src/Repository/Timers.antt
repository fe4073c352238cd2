-- ===== src/Repository/Timers.antt =====
-- The timer table of gorm_repository.go: CreateTimer, GetTimer, UpdateTimer,
-- ListCreatedTimersByElementInstanceKey, ListDueTimers.
use flow_go.Prelude.{
  ℕ, Bool, true, false, ◌&&◌, List, [], ◌∷◌, ◌++◌, Option, none, some, leb, ◌==◌, nat_eq, filter,
  if◌then◌else◌,
}
use flow_go.Model.{TimerState, Timer}

abbrev pub is_created_timer : TimerState → Bool
is_created_timer TimerState.created = true
is_created_timer _ = false

unfoldable pub create_timer : Timer → List Timer → List Timer
create_timer t rows = rows ++ t ∷ []

unfoldable pub get_timer : ℕ → List Timer → Option Timer
get_timer key [] = none
get_timer key (t ∷ ts) = if t.key == key then some t else get_timer key ts

-- The columns that `UpdateTimer` writes.
unfoldable pub update_timer : Timer → List Timer → List Timer
update_timer timer [] = []
update_timer timer (t ∷ ts) =
    let rest = update_timer timer ts in
    if t.key == timer.key
    then record t {
      state = timer.state;
      due_date = timer.due_date;
      repeat_count = timer.repeat_count;
    }
      ∷ ts
    else t ∷ rest

unfoldable pub list_created_timers : ℕ → List Timer → List Timer
list_created_timers element_instance_key =
    filter (λ t. is_created_timer t.state && t.element_instance_key == element_instance_key)

unfoldable pub is_due_timer : ℕ → Timer → Bool
is_due_timer now t = is_created_timer t.state && leb t.due_date now

unfoldable pub list_due_timers : ℕ → List Timer → List Timer
unfolding is_due_timer
list_due_timers now = filter (is_due_timer now)
