-- ===== src/Navigation/Places.antt =====
-- The place of an execution that a search finds, in the list and in the list where it is completed.
use flow_go.Prelude.{
  ℕ, suc, ◌+◌, String, ◌≡◌, refl, Bool, true, false, List, [], ◌∷◌, some, arith, ◌==◌, nat_eq,
  string_eq,
}
use flow_go.Model.Workflow.{Execution, ExecutionStatus}
use flow_go.Navigation.World.{elem_at, modify_at, index_of, find_execution}

abbrev pub settled : Execution → Execution
settled ex = record ex { status = ExecutionStatus.completed }

-- The place of an execution that a search finds.
pub record Place (id : String) (k : ℕ) (exs : List Execution) (ex : Execution) : Type 0 where
  pub at : ℕ
  pub index : index_of k id exs ≡ some (k + at)
  pub here : elem_at at exs ≡ some ex
  pub here_settled : elem_at at (modify_at at settled exs) ≡ some (settled ex)
  pub found_settled : find_execution id (modify_at at settled exs) ≡ some (settled ex)

pub found-Place :
    (id : String) (k : ℕ) (exs : List Execution) (ex : Execution)
    → find_execution id exs ≡ some ex
    → Place id k exs ex
unfolding index_of elem_at modify_at find_execution
found-Place id k [] ex h = cc h
found-Place id k (x ∷ xs) ex h =
    place_at (x.id == id) refl (λ e. found-Place id (suc k) xs ex (ground (arith, e, h)))
  where
    place_at :
        (b : Bool)
        → (x.id == id) ≡ b
        → ((x.id == id) ≡ false → Place id (suc k) xs ex)
        → Place id k (x ∷ xs) ex
    place_at true e rest = record {
      at = 0;
      index = ground arith;
      here = ground arith;
      here_settled = ground arith;
      found_settled = ground arith;
    }
    place_at false e later =
        let rest = later e in
        record {
          at = suc rest.at;
          index = ground (arith, rest.index);
          here = rest.here;
          here_settled = rest.here_settled;
          found_settled = ground (arith, rest.found_settled);
        }
