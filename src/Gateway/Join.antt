-- ===== src/Gateway/Join.antt =====
-- When a gateway lets its tokens through.
use flow_go.Prelude.{
  ℕ, ◌≤◌, String, ◌≡◌, ◌≢◌, ◌↔◌, ◌⊎◌, refl, Bool, true, false, not, ◌&&◌, List, [], ◌∷◌, some,
  arith, eq_iff, ◌==◌, string_eq, All, leb, length, Bool-cases, inl, inr,
}
use flow_go.Model.Workflow.{StepType, StepFields, Steps, Execution, is_active}
use flow_go.Gateway.{at_gateway, can_others_reach, check_gateway_join}
use flow_go.Gateway.Reach.{index_steps, can_reach}
use flow_go.Gateway.Reach.Path.{Reaches}
use flow_go.Gateway.Reach.Correct.{can_reach_correct}

-- The execution is not an active token elsewhere with a path to this step.
pub record CannotArrive (steps : Steps) (id : String) (ex : Execution) : Type 0 where
  pub no_path :
      is_active ex.status ≡ true
      → ex.step_id ≢ id
      → ¬ (Reaches (index_steps steps []) ex.step_id id)

module _ (steps : Steps) (id : String) where
  decide_one :
      (ex : Execution)
      → (b : Bool) × ((is_active ex.status && not (ex.step_id == id)) ≡ false → b ≡ false)
        × ((is_active ex.status && not (ex.step_id == id)) ≡ true
            → can_reach ex.step_id id steps ≡ some b)
        × ((b ≡ false) ↔ CannotArrive steps id ex)
  decide_one ex =
      let (b, ends, iff) = can_reach_correct ex.step_id id steps in
      elim (Bool-cases (is_active ex.status && not (ex.step_id == id))) [
        | inl elsewhere ↦ (
          b,
          λ h. cc (h, elsewhere),
          λ _. ends,
          (
            λ no. record { no_path = λ _ _ p. cc (no, iff.1 p) },
            λ c. elim (Bool-cases b) [
              | inl can ↦
                  absurd
                    (c.no_path (ground arith) (ground (arith, eq_iff ex.step_id id)) (iff.0 can))
              | inr cannot ↦ cannot
            ],
          ),
        )
        | inr settled ↦ (
          false,
          λ _. refl,
          λ h. cc (h, settled),
          (λ _. record { no_path = λ a d p. ground (arith, eq_iff ex.step_id id) }, λ _. refl),
        )
      ]

  -- The loop over the other tokens ends, and fails exactly if none of them can arrive.
  can_others_reach_lem :
      (exs : List Execution)
      → (b : Bool) × (can_others_reach steps id exs ≡ some b)
        × ((b ≡ false) ↔ All (CannotArrive steps id) exs)
  unfolding can_others_reach
  can_others_reach_lem [] = (false, refl, (λ _. tt, λ _. refl))
  can_others_reach_lem (ex ∷ exs) =
      let (b, settled, ends, iff) = decide_one ex in
      let (later, e, iffs) = can_others_reach_lem exs in
      elim (Bool-cases b) [
        | inl can ↦ (true, ground arith, (λ h. cc h, λ (h, _). cc (iff.1 h, can)))
        | inr cannot ↦ (later, ground arith, (λ h. (iff.0 cannot, iffs.0 h), λ (_, h). iffs.1 h))
      ]

-- An inclusive gateway's join always has an answer. It is ready exactly if as many tokens have
-- arrived as it has incoming flows, or no active token elsewhere has a path to it, and if it is
-- ready then it consumes the tokens that wait at it.
pub inclusive_join_iff :
    (executions : List Execution) (step : StepFields) (steps : Steps)
    → step.type ≡ StepType.gateway_inclusive
    → (ready : Bool) × (consumed : List ℕ) × (check_gateway_join executions step steps
        ≡ some (ready, consumed))
      × ((ready ≡ true) ↔ (
          (length step.incoming ≤ length (at_gateway step.id 0 executions))
          ⊎ All (CannotArrive steps step.id) executions))
      × (ready ≡ true → consumed ≡ at_gateway step.id 0 executions)
unfolding check_gateway_join
inclusive_join_iff executions step steps inclusive =
    let waiting = at_gateway step.id 0 executions in
    let (b, ends, iff) = can_others_reach_lem steps step.id executions in
    elim (Bool-cases (leb (length step.incoming) (length waiting))) [
      | inl full ↦ (true, waiting, ground arith, (λ _. inl (ground arith), λ _. refl), λ _. refl)
      | inr short ↦ elim (Bool-cases b) [
        | inl coming ↦ (
          false,
          [],
          ground arith,
          (λ h. cc h, λ h. elim h [ inl le ↦ ground arith | inr all ↦ cc (iff.1 all, coming) ]),
          λ h. cc h,
        )
        | inr none_comes ↦
            (true, waiting, ground arith, (λ _. inr (iff.0 none_comes), λ _. refl), λ _. refl)
      ]
    ]
