-- ===== src/Timers/Table/Firing.antt =====
-- Firing a timer again and again: the timer after a number of firings, each at its time.
use flow_go.Prelude.{ℕ, zero, suc, ◌-◌, ◌<◌, ◌≡◌, List, [], ◌∷◌, arith, length}
use flow_go.Prelude.Int.{ℤ, pos, negsuc}
use flow_go.Model.{TimerState, Timer}
use flow_go.Timers.Table.{fired_timer}

-- The times are the clock's readings, in the order of the firings.
unfoldable pub fired_at : List ℕ → ℤ → Timer → Timer
unfolding fired_timer
fired_at [] interval t = t
fired_at (now ∷ times) interval t = fired_at times interval (fired_timer now interval t)

module _ (interval : ℕ) (positive : 0 < interval) where
  fired-armed :
      (now n : ℕ) (t : Timer)
      → t.repeat_count ≡ pos (suc (suc n))
      → ((fired_timer now (pos interval) t).repeat_count ≡ pos (suc n))
        × ((fired_timer now (pos interval) t).state ≡ TimerState.created)
  unfolding fired_timer
  fired-armed now n t h = ground arith

  fired-last :
      (now : ℕ) (t : Timer)
      → t.repeat_count ≡ pos 1
      → ((fired_timer now (pos interval) t).repeat_count ≡ pos 0)
        × ((fired_timer now (pos interval) t).state ≡ TimerState.triggered)
  unfolding fired_timer
  fired-last now t h = ground arith

  fired-infinite :
      (now k : ℕ) (t : Timer)
      → t.repeat_count ≡ negsuc k
      → ((fired_timer now (pos interval) t).repeat_count ≡ negsuc k)
        × ((fired_timer now (pos interval) t).state ≡ TimerState.created)
  unfolding fired_timer
  fired-infinite now k t h = ground arith

  -- Let a CREATED timer have the count `n`, which is positive, and be fired at most `n` times with
  -- a positive interval. After fewer than `n` firings it is CREATED, and its count is the number of
  -- firings that are left. After `n` firings it is TRIGGERED, with the count 0.
  pub fired_at-count :
      (times : List ℕ) (n : ℕ) (t : Timer)
      → t.repeat_count ≡ pos (suc n)
      → t.state ≡ TimerState.created
      → (length times < suc n
          → ((fired_at times (pos interval) t).state ≡ TimerState.created)
            × ((fired_at times (pos interval) t).repeat_count ≡ pos (suc n - length times)))
        × (length times ≡ suc n
            → ((fired_at times (pos interval) t).state ≡ TimerState.triggered)
              × ((fired_at times (pos interval) t).repeat_count ≡ pos 0))
  unfolding fired_at
  fired_at-count [] n t h e = ground arith
  fired_at-count (now ∷ []) zero t h e = ground (arith, fired-last now t h)
  fired_at-count (now ∷ later ∷ times) zero t h e = ground arith
  fired_at-count (now ∷ times) (suc n) t h e =
      let (count, state) = fired-armed now n t h in
      ground (arith, fired_at-count times n (fired_timer now (pos interval) t) count state)

  -- A CREATED timer with a negative count is CREATED with the same count after any number of
  -- firings with a positive interval.
  pub fired_at-infinite :
      (times : List ℕ) (k : ℕ) (t : Timer)
      → t.repeat_count ≡ negsuc k
      → t.state ≡ TimerState.created
      → ((fired_at times (pos interval) t).state ≡ TimerState.created)
        × ((fired_at times (pos interval) t).repeat_count ≡ negsuc k)
  unfolding fired_at
  fired_at-infinite [] k t h e = (e, h)
  fired_at-infinite (now ∷ times) k t h e =
      let (count, state) = fired-infinite now k t h in
      fired_at-infinite times k (fired_timer now (pos interval) t) count state
