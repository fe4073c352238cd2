-- ===== src/Gateway/Reach/Path.antt =====
-- Paths along the transitions of a workflow, and what the search's inner loop does to its lists.
use flow_go.Prelude.{
  String, ◌≡◌, refl, true, List, [], ◌∷◌, ◌++◌, arith, eq_iff, ◌==◌, string_eq, if◌then◌else◌, ◌||◌,
}
use flow_go.Gateway.Reach.{StepMap, mem, targets, Search, visit}

-- A token at the first step can get to the second along transitions.
pub data Reaches (m : StepMap) (from : String) : String → Type 0 where
  here : Reaches m from from
  next : {x y : String} → Reaches m from x → mem y (targets m x) ≡ true → Reaches m from y

pub mem-append : (x : String) (xs ys : List String) → mem x (xs ++ ys) ≡ (mem x xs || mem x ys)
unfolding mem
mem-append x [] ys = refl
mem-append x (y ∷ xs) ys = ground (arith, mem-append x xs ys)

pub mem_one : (x y : String) → mem x (y ∷ []) ≡ (y == x)
unfolding mem
mem_one x y = ground arith

pub record Visited (vs : List String) (s s' : Search) : Type 0 where
  pub grows : (x : String) → mem x s.visited ≡ true → mem x s'.visited ≡ true
  pub all : (x : String) → mem x vs ≡ true → mem x s'.visited ≡ true
  pub keeps : (x : String) → mem x s.queue ≡ true → mem x s'.queue ≡ true
  pub queued : (x : String) → mem x s'.visited ≡ true → (mem x s.visited || mem x s'.queue) ≡ true
  pub from : (x : String) → mem x s'.queue ≡ true → (mem x s.queue || mem x vs) ≡ true

pub visit_lem : (vs : List String) (s : Search) → Visited vs s (visit vs s)
unfolding visit mem
visit_lem [] s = record {
  grows = λ x h. h;
  all = λ x h. cc h;
  keeps = λ x h. h;
  queued = λ x h. ground arith;
  from = λ x h. ground arith;
}
visit_lem (v ∷ vs) s =
    let s₁ : Search =
      (if mem v s.visited
        then s
        else record { visited = v ∷ s.visited; queue = s.queue ++ v ∷ [] }) in
    let l = visit_lem vs s₁ in
    record {
      grows = λ x h. ground (arith, l.grows x);
      all = λ x h. ground (arith, eq_iff v x, l.all x, l.grows x);
      keeps = λ x h. ground (arith, l.keeps x, mem-append x s.queue (v ∷ []));
      queued = λ x h.
          ground
            (arith, eq_iff v x, l.queued x, l.keeps x, mem-append x s.queue (v ∷ []), mem_one x v);
      from = λ x h. ground (arith, l.from x, mem-append x s.queue (v ∷ []), mem_one x v);
    }
