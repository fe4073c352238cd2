-- ===== src/Timers/Table/Cancelling.antt =====
-- Cancelling the timers of an element instance, on a table whose rows have different keys.
use flow_go.Prelude.{
  ℕ, ◌≡◌, ◌≢◌, refl, ap, ◌∙◌, Bool, true, false, ◌&&◌, List, [], ◌∷◌, arith, ◌==◌, nat_eq, filter,
  map, All, All-filter_both, All-map, if◌then◌else◌,
}
use flow_go.Model.{TimerState, Timer}
use flow_go.Repository.Timers.{update_timer, list_created_timers, is_created_timer}
use flow_go.Timers.Table.{cancel_each, cancel_created_timers}

abbrev pub HasUniqueTimerKeys : List Timer → Type 0
HasUniqueTimerKeys [] = Unit
HasUniqueTimerKeys (t ∷ ts) = All (λ u. (t.key == u.key) ≡ false) ts × HasUniqueTimerKeys ts

-- What one pass over the table makes of a row.
abbrev pub cancelled_row : ℕ → Timer → Timer
cancelled_row element_instance_key t =
    if is_created_timer t.state && t.element_instance_key == element_instance_key
    then record t { state = TimerState.canceled }
    else t

update-front :
    (row t : Timer) (rows : List Timer)
    → (row.key == t.key) ≡ false
    → update_timer t (row ∷ rows) ≡ row ∷ update_timer t rows
unfolding update_timer
update-front row t rows h = ground arith

cancel_each-front :
    (row : Timer) (ts rows : List Timer)
    → All (λ u. (row.key == u.key) ≡ false) ts
    → cancel_each ts (row ∷ rows) ≡ row ∷ cancel_each ts rows
unfolding cancel_each
cancel_each-front row [] rows h = refl
cancel_each-front row (t ∷ ts) rows (p, h) =
    ap (cancel_each ts) (update-front row (record t { state = TimerState.canceled }) rows p)
    ∙ cancel_each-front row ts (update_timer (record t { state = TimerState.canceled }) rows) h

update-itself :
    (t : Timer) (rows : List Timer)
    → update_timer (record t { state = TimerState.canceled }) (t ∷ rows)
      ≡ record t { state = TimerState.canceled } ∷ rows
unfolding update_timer
update-itself t rows = ground arith

module _ (key : ℕ) where
  listed_fresh :
      (row : Timer) (rows : List Timer)
      → All (λ u. (row.key == u.key) ≡ false) rows
      → All (λ u. (row.key == u.key) ≡ false) (list_created_timers key rows)
  unfolding list_created_timers
  listed_fresh row rows fresh =
      All-map
        (λ u.
          ((row.key == u.key) ≡ false)
          × ((is_created_timer u.state && u.element_instance_key == key) ≡ true))
        (λ u. (row.key == u.key) ≡ false) (λ u both. both.0)
        (filter (λ u. is_created_timer u.state && u.element_instance_key == key) rows)
        (All-filter_both (λ u. (row.key == u.key) ≡ false)
          (λ u. is_created_timer u.state && u.element_instance_key == key) rows fresh)

  cancel_step :
      (listed : Bool) (t : Timer) (ts rows done : List Timer)
      → All (λ u. (t.key == u.key) ≡ false) ts
      → cancel_each ts rows ≡ done
      → cancel_each (if listed then t ∷ ts else ts) (t ∷ rows)
        ≡ (if listed then record t { state = TimerState.canceled } else t) ∷ done
  unfolding cancel_each
  cancel_step true t ts rows done fresh e =
      ap (cancel_each ts) (update-itself t rows)
      ∙ cancel_each-front (record t { state = TimerState.canceled }) ts rows fresh
      ∙ ap (λ rest. record t { state = TimerState.canceled } ∷ rest) e
  cancel_step false t ts rows done fresh e =
      cancel_each-front t ts rows fresh ∙ ap (λ rest. t ∷ rest) e

  cancel_listed :
      (rows : List Timer)
      → HasUniqueTimerKeys rows
      → cancel_each (list_created_timers key rows) rows ≡ map (cancelled_row key) rows
  unfolding cancel_each list_created_timers filter
  cancel_listed [] h = refl
  cancel_listed (t ∷ rows) (fresh, h) =
      cancel_step (is_created_timer t.state && t.element_instance_key == key) t
        (list_created_timers key rows) rows (map (cancelled_row key) rows)
        (listed_fresh t rows fresh) (cancel_listed rows h)

  -- On a table whose rows have different keys, cancelling the timers of an element instance, whose
  -- key is not 0, is one pass that makes its CREATED timers CANCELED and keeps every other row as
  -- it is.
  pub cancel-map :
      (rows : List Timer)
      → HasUniqueTimerKeys rows
      → key ≢ 0
      → cancel_created_timers key rows ≡ map (cancelled_row key) rows
  unfolding cancel_created_timers
  cancel-map rows h k = ground (arith, cancel_listed rows h)
