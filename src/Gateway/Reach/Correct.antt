-- ===== src/Gateway/Reach/Correct.antt =====
-- canReach (gateway_logic.go) and the paths along the transitions of a workflow.
use flow_go.Prelude.{
  ℕ, zero, suc, String, ◌≡◌, ◌≢◌, ◌↔◌, refl, subst, Bool, true, false, List, [], ◌∷◌, some, arith,
  eq_iff, ◌==◌, string_eq, length, Bool-cases, inl, inr,
}
use flow_go.Model.Workflow.{Steps}
use flow_go.Gateway.Reach.{
  StepMap, index_steps, mem, targets, all_targets, Search, visit, search, can_reach,
}
use flow_go.Gateway.Reach.Path.{Reaches, here, next, Visited, visit_lem}
use flow_go.Gateway.Reach.Ends.{search_ends, unseen-le}

module _ (m : StepMap) (start target : String) where
  AllReached : List String → Type 0
  AllReached queue = (x : String) → mem x queue ≡ true → Reaches m start x

  round-reached :
      (visited queue : List String) (curr : String)
      → AllReached (curr ∷ queue)
      → AllReached (visit (targets m curr) (record { visited = visited; queue = queue })).queue
  unfolding AllReached mem
  round-reached visited queue curr h x q =
      let s : Search = record { visited = visited; queue = queue } in
      let v = visit_lem (targets m curr) s in
      elim (Bool-cases (mem x queue)) [
        | inl old ↦ h x (ground arith)
        | inr new ↦ next (h curr (ground (arith, eq_iff curr curr))) (ground (arith, v.from x q))
      ]

  search_sound :
      (fuel : ℕ) (visited queue : List String)
      → AllReached queue
      → search m target fuel visited queue ≡ some true
      → Reaches m start target
  unfolding search AllReached mem
  search_sound fuel visited [] h e = cc e
  search_sound zero visited (curr ∷ queue) h e = cc e
  search_sound (suc fuel) visited (curr ∷ queue) h e = elim (Bool-cases (curr == target)) [
    | inl found ↦ h target (ground arith)
    | inr other ↦
        let s = visit (targets m curr) (record { visited = visited; queue = queue }) in
        search_sound fuel s.visited s.queue (round-reached visited queue curr h) (rw other at e)
  ]

  -- A step that has left the queue is not the target, and its targets are visited.
  record IsClosed (visited queue : List String) : Type 0 where
    other : (x : String) → mem x visited ≡ true → mem x queue ≡ false → (x == target) ≡ false
    closed :
        (x y : String)
        → mem x visited ≡ true
        → mem x queue ≡ false
        → mem y (targets m x) ≡ true
        → mem y visited ≡ true

  round-IsClosed :
      (visited queue : List String) (curr : String)
      → (curr == target) ≡ false
      → IsClosed visited (curr ∷ queue)
      → (s : Search) → Visited (targets m curr) (record { visited = visited; queue = queue }) s
      → IsClosed s.visited s.queue
  unfolding mem
  round-IsClosed visited queue curr differ h s v = record {
    other = λ x seen out. ground (arith, eq_iff curr x, v.queued x seen, v.keeps x, h.other x);
    closed = λ x y seen out edge.
        ground (arith, eq_iff curr x, v.queued x seen, v.keeps x, h.closed x y, v.grows y, v.all y);
  }

  -- A search that fails has visited a set of steps that is closed and does not hold the target.
  record Exhausted (visited : List String) : Type 0 where
    final : List String
    larger : (x : String) → mem x visited ≡ true → mem x final ≡ true
    shut : IsClosed final []

  search_complete :
      (fuel : ℕ) (visited queue : List String)
      → IsClosed visited queue
      → search m target fuel visited queue ≡ some false
      → Exhausted visited
  unfolding search
  search_complete fuel visited [] h e = record { final = visited; larger = λ x k. k; shut = h }
  search_complete zero visited (curr ∷ queue) h e = cc e
  search_complete (suc fuel) visited (curr ∷ queue) h e = elim (Bool-cases (curr == target)) [
    | inl found ↦ cc (rw found at e)
    | inr other ↦
        let s = visit (targets m curr) (record { visited = visited; queue = queue }) in
        let v = visit_lem (targets m curr) (record { visited = visited; queue = queue }) in
        let l =
          search_complete fuel s.visited s.queue (round-IsClosed visited queue curr other h s v)
            (rw other at e) in
        record { final = l.final; larger = λ x k. l.larger x (v.grows x k); shut = l.shut }
  ]

  reached-visited :
      (final : List String)
      → mem start final ≡ true
      → IsClosed final []
      → (x : String) → Reaches m start x
      → mem x final ≡ true
  unfolding mem
  reached-visited final h c x here = h
  reached-visited final h c y (next {x} p edge) =
      c.closed x y (reached-visited final h c x p) refl edge

  Exhausted-unreached : Exhausted (start ∷ []) → Reaches m start target → target ≢ target
  unfolding mem
  Exhausted-unreached l p e =
      let seen =
        reached-visited l.final (l.larger start (ground (arith, eq_iff start start))) l.shut target
          p in
      ground (arith, eq_iff target target, l.shut.other target seen refl)

  start-reached : AllReached (start ∷ [])
  unfolding AllReached mem
  start-reached x h = subst (Reaches m start) (ground (arith, eq_iff start x)) here

  start-IsClosed : IsClosed (start ∷ []) (start ∷ [])
  unfolding mem
  start-IsClosed = record {
    other = λ x seen out. cc (seen, out);
    closed = λ x y seen out. cc (seen, out);
  }

  search_correct :
      (b : Bool) (fuel : ℕ)
      → search m target fuel (start ∷ []) (start ∷ []) ≡ some b
      → (b ≡ true) ↔ Reaches m start target
  search_correct true fuel e =
      (λ _. search_sound fuel (start ∷ []) (start ∷ []) start-reached e, λ _. refl)
  search_correct false fuel e = (
    λ h. cc h,
    λ p. absurd (
        Exhausted-unreached (search_complete fuel (start ∷ []) (start ∷ []) start-IsClosed e) p
          refl),
  )

-- The search always ends on its fuel, and answers whether there is a path along the transitions of
-- the workflow's steps, at any depth of sub-processes.
pub can_reach_correct :
    (start target : String) (steps : Steps)
    → (b : Bool) × (can_reach start target steps ≡ some b)
      × ((b ≡ true) ↔ Reaches (index_steps steps []) start target)
unfolding can_reach
can_reach_correct start target steps = elim (Bool-cases (start == target)) [
  | inl same ↦ (
    true,
    ground arith,
    (
      λ _. subst (Reaches (index_steps steps []) start) (ground (arith, eq_iff start target)) here,
      λ _. refl,
    ),
  )
  | inr differ ↦
      let m = index_steps steps [] in
      let fuel = suc (length (all_targets m)) in
      let (b, ends) =
        search_ends m target fuel (start ∷ []) (start ∷ [])
          (omega (arith, unseen-le (start ∷ []) (all_targets m))) in
      (b, ground arith, search_correct m start target b fuel ends)
]
