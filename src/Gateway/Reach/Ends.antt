-- ===== src/Gateway/Reach/Ends.antt =====
-- The fuel of the search of canReach (gateway_logic.go), and the work that is left to it.
use flow_go.Prelude.{
  ℕ, zero, suc, ◌+◌, ◌≤◌, String, ◌≡◌, refl, Bool, true, false, List, [], ◌∷◌, ◌++◌, some, arith,
  eq_iff, ◌==◌, string_eq, length, length-append, map, if◌then◌else◌,
}
use flow_go.Prelude.Assoc.{lookup}
use flow_go.Model.Workflow.{Transition}
use flow_go.Gateway.Reach.{StepMap, mem, targets, all_targets, Search, visit, search}
use flow_go.Gateway.Reach.Path.{mem-append}

-- How many of these are not visited yet.
unfoldable pub unseen : List String → List String → ℕ
unfolding mem
unseen visited [] = 0
unseen visited (t ∷ ts) = (if mem t visited then 0 else 1) + unseen visited ts

unseen-visit_le :
    (v : String) (visited ts : List String) → unseen (v ∷ visited) ts ≤ unseen visited ts
unfolding unseen mem
unseen-visit_le v visited [] = omega arith
unseen-visit_le v visited (t ∷ ts) = ground (arith, unseen-visit_le v visited ts)

unseen-visit :
    (v : String) (visited ts : List String)
    → mem v visited ≡ false
    → mem v ts ≡ true
    → suc (unseen (v ∷ visited) ts) ≤ unseen visited ts
unfolding unseen mem
unseen-visit v visited [] fresh h = cc h
unseen-visit v visited (t ∷ ts) fresh h =
    ground
      (arith, eq_iff t v, eq_iff v t, unseen-visit v visited ts fresh, unseen-visit_le v visited ts)

-- Each step that enters the queue was unseen before.
work-visit :
    (ts vs : List String) (s : Search)
    → ((x : String) → mem x vs ≡ true → mem x ts ≡ true)
    → length (visit vs s).queue + unseen (visit vs s).visited ts
      ≤ length s.queue + unseen s.visited ts
unfolding visit mem
work-visit ts [] s sub = omega arith
work-visit ts (v ∷ vs) s sub =
    let s₁ : Search =
      (if mem v s.visited
        then s
        else record { visited = v ∷ s.visited; queue = s.queue ++ v ∷ [] }) in
    let l = work-visit ts vs s₁ (λ x h. sub x (ground (arith))) in
    ground
      (arith, l, eq_iff v v, length-append s.queue (v ∷ []), unseen-visit v s.visited ts, sub v)

targets-all :
    (m : StepMap) (id x : String) → mem x (targets m id) ≡ true → mem x (all_targets m) ≡ true
unfolding targets all_targets mem lookup
targets-all [] id x h = cc h
targets-all ((j, fields) ∷ m) id x h = ground (
  arith,
  mem-append x (map (λ (t : Transition). t.target_ref) fields.outgoing) (all_targets m),
  targets-all m id x,
)

pub search_ends :
    (m : StepMap) (target : String) (fuel : ℕ) (visited queue : List String)
    → length queue + unseen visited (all_targets m) ≤ fuel
    → (b : Bool) × (search m target fuel visited queue ≡ some b)
unfolding search
search_ends m target fuel visited [] h = (false, refl)
search_ends m target zero visited (curr ∷ queue) h = (false, ground arith)
search_ends m target (suc fuel) visited (curr ∷ queue) h =
    let s : Search = record { visited = visited; queue = queue } in
    let less = work-visit (all_targets m) (targets m curr) s (targets-all m curr) in
    let s' = visit (targets m curr) s in
    let (b, rest) = search_ends m target fuel s'.visited s'.queue (omega arith) in
    (if curr == target then true else b, ground arith)

pub unseen-le : (visited ts : List String) → unseen visited ts ≤ length ts
unfolding unseen
unseen-le visited [] = omega arith
unseen-le visited (t ∷ ts) = ground (arith, unseen-le visited ts)
