-- ===== src/Navigation/Monotone.antt =====
-- What a navigation does by itself, on any fuel, whether it ends well or fails, between its calls
-- of code that is not part of it.
use flow_go.Prelude.{ℕ, ◌≡◌, true, List, ◌++◌}
use flow_go.Model.Event.{Event}
use flow_go.Model.Workflow.{is_completed_instance}
use flow_go.Navigation.Follows.Calls.{Calls}
use flow_go.Navigation.Steps.{Outside, KeepsRows, StaysCalm}
use flow_go.Navigation.World.{World}

-- `later` comes after `earlier` in a navigation with these keys.
pub record Continues (keys : ℕ → ℕ) (earlier later : World) : Type 0 where
  pub keeps_rows : KeepsRows keys earlier.session.db later.session.db
  pub stays_calm : StaysCalm earlier.instance_.executions later.instance_.executions
  pub new_events : List Event
  pub keeps_events : later.session.events ≡ earlier.session.events ++ new_events
  pub stays_completed :
      is_completed_instance earlier.instance_.status ≡ true
      → is_completed_instance later.instance_.status ≡ true
  pub same_key : later.instance_.key ≡ earlier.instance_.key
  pub same_parent : later.instance_.parent_instance ≡ earlier.instance_.parent_instance

-- A run as stretches that continue where the one before ended, with a call between two stretches.
pub data Stretches (keys : ℕ → ℕ) (out : Outside) : World → World → Type 0 where
  stretch : (u v : World) → Continues keys u v → Stretches keys out u v
  called :
      (u v x w : World)
      → Continues keys u v
      → out v x
      → Stretches keys out x w
      → Stretches keys out u w
