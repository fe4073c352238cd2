-- ===== src/Dmn/FirstHit.antt =====
-- The answer of a decision table: Evaluate and matchRule of backend/libs/dmn/table.go.
use flow_go.Prelude.{
  String, ◌≡◌, ◌↔◌, ◌⊎◌, refl, ap, true, false, List, [], ◌∷◌, ◌++◌, some, arith, All, Bool-cases,
  inl, inr,
}
use flow_go.Prelude.Assoc.{lookup}
use flow_go.Dmn.{
  Values, Condition, Rule, DecisionTable, condition_holds, match_rule, first_hit, evaluate,
}

module _ (go : Values) (inputs : List (String × go.Value)) where
  -- The rule's conditions all hold of the inputs.
  abbrev pub Matches : Rule go → Type 0
  Matches rule =
      All
        (λ (entry : String × Condition go).
          condition_holds go entry.1 (lookup entry.0 inputs) ≡ true)
        rule.when

  match_rule_iff :
      (when : List (String × Condition go))
      → (match_rule go when inputs ≡ true)
        ↔ All
            (λ (entry : String × Condition go).
              condition_holds go entry.1 (lookup entry.0 inputs) ≡ true)
            when
  unfolding match_rule
  match_rule_iff [] = (λ h. tt, λ h. refl)
  match_rule_iff (entry ∷ when) =
      let (to, back) = match_rule_iff when in
      (λ h. (ground arith, to (ground arith)), λ (p, h). rw p (back h))

  -- The rules before the hit, the hit, and those after it.
  pub record FirstMatch (rules : List (Rule go)) : Type 0 where
    pub before : List (Rule go)
    pub rule : Rule go
    pub after : List (Rule go)
    pub position : rules ≡ before ++ rule ∷ after
    pub misses : All (λ (r : Rule go). match_rule go r.when inputs ≡ false) before
    pub matches : Matches rule

  first_hit_lem :
      (rules : List (Rule go))
      → ((h : FirstMatch rules) × (first_hit go rules inputs ≡ h.rule.then_))
        ⊎ (All (λ (r : Rule go). match_rule go r.when inputs ≡ false) rules
            × (first_hit go rules inputs ≡ []))
  unfolding first_hit
  first_hit_lem [] = inr (tt, refl)
  first_hit_lem (rule ∷ rules) = elim (Bool-cases (match_rule go rule.when inputs)) [
    | inl hit ↦ inl (
      record {
        before = [];
        rule = rule;
        after = rules;
        position = refl;
        misses = tt;
        matches = (match_rule_iff rule.when).0 hit;
      },
      rw hit refl,
    )
    | inr miss ↦ elim (first_hit_lem rules) [
      | inl (h, e) ↦ inl (
        record {
          before = rule ∷ h.before;
          rule = h.rule;
          after = h.after;
          position = ap (λ x. rule ∷ x) h.position;
          misses = (miss, h.misses);
          matches = h.matches;
        },
        rw miss e,
      )
      | inr (misses, e) ↦ inr ((miss, misses), rw miss e)
    ]
  ]

-- Evaluating a table gives the outputs of the first rule whose conditions all hold of the inputs,
-- none of the rules before it matching, or no outputs if no rule matches.
pub evaluate-first_hit :
    (go : Values) (table : DecisionTable go) (inputs : List (String × go.Value))
    → ((h : FirstMatch go inputs table.rules) × (evaluate go (some table) inputs
          ≡ some h.rule.then_))
      ⊎ (All (λ (r : Rule go). match_rule go r.when inputs ≡ false) table.rules
          × (evaluate go (some table) inputs ≡ some []))
unfolding evaluate
evaluate-first_hit go table inputs = elim (first_hit_lem go inputs table.rules) [
  | inl (h, e) ↦ inl (h, ap some e)
  | inr (misses, e) ↦ inr (misses, ap some e)
]
