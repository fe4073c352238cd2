-- ===== src/Examples/Decisions.antt =====
-- A run of a decision table.
use flow_go.Prelude.{
  ℕ, ◌≡◌, ◌⊎◌, refl, false, [], ◌∷◌, some, All, ltb, leb, ◌==◌, nat_eq, if◌then◌else◌,
}
use flow_go.Prelude.Assoc.{lookup}
use flow_go.Dmn.{Values, Rule, DecisionTable, match_rule, evaluate}
use flow_go.Dmn.FirstHit.{FirstMatch, evaluate-first_hit}

-- Small numbers as values.
abbrev numbers : Values
numbers = record {
  Value = ℕ;
  is_nil = λ n. false;
  sprint = λ n. if n == 1 then "1" else "many";
  Float = ℕ;
  as_float = λ n. some n;
  less = ltb;
  less_equal = leb;
  to_lower = λ s. s;
}

abbrev big_order : Rule numbers
big_order = record {
  when = ("amount", record { op = " gt "; value = 100 }) ∷ [];
  then_ = ("level", 2) ∷ [];
}

abbrev any_order : Rule numbers
any_order = record { when = []; then_ = ("level", 1) ∷ [] }

abbrev approval : DecisionTable numbers
approval = record { id = "approval"; hit_policy = "FIRST"; rules = big_order ∷ any_order ∷ [] }

evaluate_runs :
    (evaluate numbers (some approval) (("amount", 500) ∷ []) ≡ some (("level", 2) ∷ []))
    × (evaluate numbers (some approval) (("amount", 5) ∷ []) ≡ some (("level", 1) ∷ []))
unfolding evaluate lookup
evaluate_runs = (refl, refl)

evaluate-first_hit_example :
    ((h : FirstMatch numbers (("amount", 5) ∷ []) approval.rules) × (evaluate numbers
          (some approval)
          (("amount", 5) ∷ [])
        ≡ some h.rule.then_))
    ⊎ (All
          (λ (r : Rule numbers). match_rule numbers r.when (("amount", 5) ∷ []) ≡ false)
          approval.rules
        × (evaluate numbers (some approval) (("amount", 5) ∷ []) ≡ some []))
evaluate-first_hit_example = evaluate-first_hit numbers approval (("amount", 5) ∷ [])
