-- ===== src/Gateway/Next.antt =====
-- Which steps a token goes to.
use flow_go.Prelude.{
  ◌≤◌, String, ◌≡◌, ◌≢◌, ◌↔◌, refl, Bool, true, false, not, ◌&&◌, List, [], ◌∷◌, none, some, arith,
  string_eq, filter, map, take, length, if◌then◌else◌,
}
use flow_go.Prelude.Text.{is_empty}
use flow_go.Model.Workflow.{StepType, Transition, StepFields}
use flow_go.Gateway.{
  JsResult, is_default, holds, default_target, matching, first_matching, or_default, some_path,
  determine_next_step_ids,
}

abbrev pub is_inclusive : StepType → Bool
is_inclusive StepType.gateway_inclusive = true
is_inclusive _ = false

-- The gateways that take every path.
abbrev pub takes_all : StepType → Bool
takes_all StepType.gateway_parallel = true
takes_all StepType.gateway_event_based = true
takes_all _ = false

module _ (javascript : String → JsResult) (step : StepFields) where
  -- A path that may be taken: not the default flow, and its condition holds.
  abbrev pub is_open : Transition → Bool
  is_open t = not (is_default javascript step t) && holds javascript t

  -- The paths that may be taken, and the target of the default flow where there are none.
  abbrev pub open_targets : List String
  open_targets = map (λ t. t.target_ref) (filter is_open step.outgoing)

  abbrev pub fallback : List String
  fallback =
      if is_empty step.default_flow
      then []
      else default_target javascript step.default_flow step.outgoing

  matching-filter :
      (ts : List Transition)
      → matching javascript step ts ≡ map (λ t. t.target_ref) (filter is_open ts)
  unfolding matching filter
  matching-filter [] = refl
  matching-filter (t ∷ ts) = ground (arith, matching-filter ts)

  first_matching-filter :
      (ts : List Transition)
      → first_matching javascript step ts ≡ take 1 (map (λ t. t.target_ref) (filter is_open ts))
  unfolding first_matching filter
  first_matching-filter [] = refl
  first_matching-filter (t ∷ ts) = ground (arith, first_matching-filter ts)

length-default_target :
    (javascript : String → JsResult) (d : String) (ts : List Transition)
    → length (default_target javascript d ts) ≤ 1
unfolding default_target
length-default_target javascript d [] = omega arith
length-default_target javascript d (t ∷ ts) = ground (arith, length-default_target javascript d ts)

-- The paths that a token takes: `opens` are the targets of the open paths, and `otherwise` is the
-- target of the default flow.
pub record Chosen (inclusive : Bool) (opens otherwise ids : List String) : Type 0 where
  pub open_ones : opens ≢ [] → ids ≡ (if inclusive then opens else take 1 opens)
  pub by_default : opens ≡ [] → ids ≡ otherwise
  pub at_least_one : 1 ≤ length ids
  pub single : inclusive ≡ false → length ids ≡ 1

module _ (javascript : String → JsResult) (step : StepFields) where
  picked : List String → List String
  unfolding or_default
  picked opens = or_default javascript step (if is_inclusive step.type then opens else take 1 opens)

  determine-picked :
      takes_all step.type ≡ false
      → determine_next_step_ids javascript step
        ≡ some_path javascript (picked (open_targets javascript step))
  unfolding determine_next_step_ids picked
  determine-picked h = ground (
    arith,
    matching-filter javascript step step.outgoing,
    first_matching-filter javascript step step.outgoing,
  )

  picked_ok :
      (opens ids : List String)
      → some_path javascript (picked opens) ≡ some ids
      → Chosen (is_inclusive step.type) opens (fallback javascript step) ids
  unfolding picked some_path
  picked_ok [] ids e =
      let few = length-default_target javascript step.default_flow step.outgoing in
      record {
        open_ones = λ h. absurd (h refl);
        by_default = λ _. ground arith;
        at_least_one = ground arith;
        single = λ h. ground arith;
      }
  picked_ok (x ∷ xs) ids e = record {
    open_ones = λ _. ground arith;
    by_default = λ h. cc h;
    at_least_one = ground arith;
    single = λ h. ground arith;
  }

  picked-none :
      (opens : List String)
      → (some_path javascript (picked opens) ≡ none)
        ↔ ((opens ≡ []) × (fallback javascript step ≡ []))
  unfolding picked some_path
  picked-none [] = (λ h. ground arith, λ h. ground arith)
  picked-none (x ∷ xs) = (λ h. ground arith, λ (h, _). cc h)

-- A step other than a parallel or event-based gateway: the token goes to the targets of all the
-- open paths at an inclusive gateway and of the first of them elsewhere, and to the target of the
-- default flow where no path is open; that is at least one step, and exactly one away from
-- inclusive gateways.
pub determine_next_step_ids_ok :
    (javascript : String → JsResult) (step : StepFields) (ids : List String)
    → takes_all step.type ≡ false
    → determine_next_step_ids javascript step ≡ some ids
    → Chosen (is_inclusive step.type) (open_targets javascript step) (fallback javascript step) ids
determine_next_step_ids_ok javascript step ids h e =
    picked_ok javascript step (open_targets javascript step) ids
      (rw (determine-picked javascript step h) at e)

-- Such a step fails to go on exactly if no path is open and there is no default flow to take.
pub determine_next_step_ids-none :
    (javascript : String → JsResult) (step : StepFields)
    → takes_all step.type ≡ false
    → (determine_next_step_ids javascript step ≡ none)
      ↔ ((open_targets javascript step ≡ []) × (fallback javascript step ≡ []))
determine_next_step_ids-none javascript step h =
    rw (determine-picked javascript step h)
      (picked-none javascript step (open_targets javascript step))
