-- ===== src/Repository/Incidents.antt =====
-- The incident table of gorm_repository.go: ListIncidents. A limit of 0 or less means 100, and more
-- than 1000 means 1000.
use mathlib.Core.List.{reverse}
use flow_go.Prelude.{
  ℕ, ◌≡◌, Bool, false, ◌||◌, List, [], ◌∷◌, ◌++◌, arith, ◌==◌, nat_eq, filter, take, if◌then◌else◌,
}
use flow_go.Prelude.Int.{ℤ, pos, leb_ℤ, ltb_ℤ, pos_part}
use flow_go.Prelude.Sorting.{order_by}
use flow_go.Model.{Incident}

unfoldable pub clamp_limit : ℤ → ℕ
clamp_limit limit =
    if leb_ℤ limit (pos 0) then 100 else if ltb_ℤ (pos 1000) limit then 1000 else pos_part limit

-- The key 0 stands for every instance.
unfoldable pub is_about : ℕ → Incident → Bool
is_about process_instance_key i =
    process_instance_key == 0 || i.process_instance_key == process_instance_key

-- The latest first.
unfoldable pub list_incidents : ℕ → ℤ → List Incident → List Incident
list_incidents process_instance_key limit rows =
    take (clamp_limit limit)
      (reverse (order_by (λ i. i.created_at) (filter (is_about process_instance_key) rows)))

filter-skip :
    (key : ℕ) (rows : List Incident) (i : Incident)
    → is_about key i ≡ false
    → filter (is_about key) (rows ++ i ∷ []) ≡ filter (is_about key) rows
unfolding filter
filter-skip key [] i h = rw h
filter-skip key (row ∷ rows) i h = ground (arith, filter-skip key rows i h)

-- A row of another instance is not listed.
pub list_incidents-skip :
    (key : ℕ) (limit : ℤ) (rows : List Incident) (i : Incident)
    → is_about key i ≡ false
    → list_incidents key limit (rows ++ i ∷ []) ≡ list_incidents key limit rows
unfolding list_incidents
list_incidents-skip key limit rows i h = rw (filter-skip key rows i h)
