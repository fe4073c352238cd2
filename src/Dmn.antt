-- ===== src/Dmn.antt =====
-- The decision tables of backend/libs/dmn/table.go: Parse after the JSON is decoded, Evaluate,
-- matchRule. A value of a rule or an input is what JSON decodes to, so the model takes from Go's
-- library what the code uses of values: the text that they print as, and the number that they
-- convert to, if any. An object of JSON is a list of its entries, each key once, in the order in
-- which Go's map is visited.
pub mod FirstHit
use flow_go.Prelude.{
  ℕ, String, Bool, true, false, not, ◌&&◌, ◌||◌, List, [], ◌∷◌, Option, none, some, ◌==◌, string_eq,
  if◌then◌else◌,
}
use flow_go.Prelude.Assoc.{lookup}
use flow_go.Prelude.Text.{is_empty, trim_space}

-- Go's values and its 64-bit floating point numbers.
pub record Values : Type 1 where
  pub Value : Type 0
  pub is_nil : Value → Bool
  pub sprint : Value → String
  pub Float : Type 0
  pub as_float : Value → Option Float
  pub less : Float → Float → Bool
  pub less_equal : Float → Float → Bool
  pub to_lower : String → String

module _ (go : Values) where
  open go use {Value}

  pub record Condition : Type 0 where
    pub op : String
    pub value : Value

  pub record Rule : Type 0 where
    pub when : List (String × Condition)
    pub then_ : List (String × Value)

  pub record DecisionTable : Type 0 where
    pub id : String
    pub hit_policy : String
    pub rules : List Rule

  -- `Parse`, on what the JSON decodes to; `none` is an error.
  unfoldable pub parse : Option DecisionTable → Option DecisionTable
  unfolding trim_space
  parse none = none
  parse (some table) =
      if is_empty (trim_space table.id)
      then none
      else if is_empty table.hit_policy
      then some (record table { hit_policy = "FIRST" })
      else some table

  unfoldable pub equals : Value → Value → Bool
  equals a b = go.is_nil a && go.is_nil b || go.sprint a == go.sprint b

  both_floats : (go.Float → go.Float → Bool) → Option go.Float → Option go.Float → Bool
  both_floats test (some left) (some right) = test left right
  both_floats test _ _ = false

  -- The text of the operator that a condition means.
  unfoldable pub operator : String → String
  unfolding trim_space
  operator op = let normal = go.to_lower (trim_space op) in if is_empty normal then "eq" else normal

  -- A comparison of numbers; `val` is the input, if there is one.
  compared : (go.Float → go.Float → Bool) → Option Value → Value → Bool
  unfolding both_floats
  compared test none value = false
  compared test (some val) value = both_floats test (go.as_float val) (go.as_float value)

  is_there : Option Value → Bool
  is_there none = false
  is_there (some _) = true

  equals_input : Option Value → Value → Bool
  unfolding equals
  equals_input none value = false
  equals_input (some val) value = equals val value

  -- One round of the loop of `matchRule`: whether it goes on.
  unfoldable pub condition_holds : Condition → Option Value → Bool
  unfolding operator compared is_there equals_input
  condition_holds cond val =
      let op = operator cond.op in
      if op == "exists"
      then is_there val
      else if op == "eq"
      then equals_input val cond.value
      else if op == "neq"
      then not (equals_input val cond.value)
      else if op == "gt"
      then compared (λ x y. go.less y x) val cond.value
      else if op == "gte"
      then compared (λ x y. go.less_equal y x) val cond.value
      else if op == "lt"
      then compared go.less val cond.value
      else if op == "lte"
      then compared go.less_equal val cond.value
      else false

  unfoldable pub match_rule : List (String × Condition) → List (String × Value) → Bool
  unfolding condition_holds lookup
  match_rule [] inputs = true
  match_rule (entry ∷ when) inputs =
      let rest = match_rule when inputs in
      if condition_holds entry.1 (lookup entry.0 inputs) then rest else false

  unfoldable pub first_hit : List Rule → List (String × Value) → List (String × Value)
  unfolding match_rule
  first_hit [] inputs = []
  first_hit (rule ∷ rules) inputs =
      let rest = first_hit rules inputs in if match_rule rule.when inputs then rule.then_ else rest

  -- `none` is the error for a table that is nil. Inputs that are nil are an empty map.
  unfoldable pub evaluate :
      Option DecisionTable → List (String × Value) → Option (List (String × Value))
  unfolding first_hit
  evaluate none inputs = none
  evaluate (some table) inputs = some (first_hit table.rules inputs)
