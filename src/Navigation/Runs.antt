-- ===== src/Navigation/Runs.antt =====
-- Runs of a navigation that end well.
use flow_go.Prelude.{◌≡◌, refl, nat_eq, string_eq}
use flow_go.Navigation.World.{World, Outcome, done, failed, then_, Nav, ◌>>=◌, ◌>>◌}

-- The run of an action ends well in a world of which `P` holds.
abbrev pub RunsTo : (World → Type 0) → Outcome (Unit {0}) × World → Type 0
RunsTo P r = (r.0 ≡ done tt) × P r.1

RunsTo-outcome :
    (k : Nav (Unit {0})) (P Q : World → Type 0) (r : Outcome (Unit {0}) × World)
    → RunsTo P r
    → ((v : World) → P v → RunsTo Q (k v))
    → RunsTo Q (then_ r (λ _. k))
RunsTo-outcome k P Q (done a, v) (e, p) next = next v p
RunsTo-outcome k P Q (failed x, v) (e, p) next = cc e

pub RunsTo-then :
    (m k : Nav (Unit {0})) (w : World) (P Q : World → Type 0)
    → RunsTo P (m w)
    → ((v : World) → P v → RunsTo Q (k v))
    → RunsTo Q ((m >> k) w)
unfolding ◌>>◌ ◌>>=◌
RunsTo-then m k w P Q p next = RunsTo-outcome k P Q (m w) p next

pub bind-done :
    {A B : Type 0} (m : Nav A) (f : A → Nav B) (w v : World) (a : A)
    → m w ≡ (done a, v)
    → (m >>= f) w ≡ f a v
unfolding ◌>>=◌
bind-done m f w v a h = rw h refl

pub RunsTo-weaken :
    (P Q : World → Type 0) (r : Outcome (Unit {0}) × World)
    → ((v : World) → P v → Q v)
    → RunsTo P r
    → RunsTo Q r
RunsTo-weaken P Q r f (e, p) = (e, f r.1 p)
