-- ===== src/Navigation/Variables.antt =====
-- Variables of a navigation: persistVariables of engine.go, getFlowScopeKey of navigation.go, and
-- the input and output mappings of mapping.go. Go leaves the order of a map open; the model has the
-- order of the list.
use Prim.Native.Char.{code}
use Prim.Native.String.{◌++◌}
use flow_go.Prelude.{
  ℕ, String, List, [], ◌∷◌, Option, none, some, ◌==◌, nat_eq, nat_beq, if◌then◌else◌,
}
use flow_go.Prelude.Assoc.{lookup, insert}
use flow_go.Prelude.Text.{is_empty}
use flow_go.Model.{Variable}
use flow_go.Model.Event.{variable_updated}
use flow_go.Model.Value.{Value, Variables}
use flow_go.Model.Workflow.{StepFields, Execution, WorkflowInstance}
use flow_go.Repository.Instances.{create_variable}
use flow_go.Navigation.World.{
  Env, marshal_failed, Nav, pure, fail, ◌>>=◌, ◌>>◌, asks, draw, store, emit, set_context,
  find_execution,
}

-- `instance.Context`.
unfoldable pub get_context : Nav Variables
get_context = asks (λ w. w.instance_.context)

-- `instance.Context[k] = v` for each of the updates.
unfoldable pub insert_all : Variables → Variables → Variables
insert_all [] context = context
insert_all (v ∷ vs) context = insert_all vs (insert v.0 v.1 context)

unfoldable pub update_context : Variables → Nav (Unit {0})
update_context updates = do context ← get_context; set_context (insert_all updates context)

unfoldable pub scope_or : ℕ → Option Execution → ℕ
scope_or instance_key none = instance_key
scope_or instance_key (some ex) =
    if ex.element_instance_key == 0 then instance_key else ex.element_instance_key

-- `getFlowScopeKey`.
unfoldable pub flow_scope_key : String → WorkflowInstance → ℕ
flow_scope_key parent_id instance_ =
    if is_empty parent_id
    then instance_.key
    else scope_or instance_.key (find_execution parent_id instance_.executions)

-- The column `process_instance_key` is set to the instance's key after all.
abbrev pub new_variable : String → ℕ → String → ℕ → ℕ → ℕ → Variable
new_variable name key json instance_key created_at updated_at = record {
  scope_key = key;
  process_instance_key = instance_key;
  name = name;
  value = json;
  created_at = created_at;
  updated_at = updated_at;
}

-- `${name}`: the text between the braces.
abbrev until_brace : String → Option String
until_brace String.[] = none
until_brace (String.◌∷◌ c String.[]) = if nat_beq (code c) 125 then some "" else none
until_brace (String.◌∷◌ c s) = elim (until_brace s) [
  | none ↦ none
  | some name ↦ some (String.◌∷◌ c name)
]

abbrev after_dollar : String → Option String
after_dollar String.[] = none
after_dollar (String.◌∷◌ c s) = if nat_beq (code c) 123 then until_brace s else none

unfoldable pub expression_name : String → Option String
expression_name String.[] = none
expression_name (String.◌∷◌ c s) = if nat_beq (code c) 36 then after_dollar s else none

abbrev value_or_nil : Option Value → Value
value_or_nil none = Value.nil
value_or_nil (some v) = v

-- A source that is no variable: the variable that an expression names, or nil, or a literal.
unfoldable pub expression_or_literal : Variables → String → Option String → Value
expression_or_literal context source none = Value.text source
expression_or_literal context source (some name) = value_or_nil (lookup name context)

unfoldable pub input_value : Variables → String → Value
input_value context source = elim (lookup source context) [
  | some v ↦ v
  | none ↦ expression_or_literal context source (expression_name source)
]

unfoldable pub input_updates : Variables → List (String × String) → Variables
input_updates context [] = []
input_updates context (p ∷ ps) = (p.0, input_value context p.1) ∷ input_updates context ps

abbrev key_or_zero : Option Execution → ℕ
key_or_zero none = 0
key_or_zero (some ex) = ex.element_instance_key

-- The sources that are variables.
unfoldable pub output_updates : Variables → List (String × String) → Variables
output_updates context [] = []
output_updates context (p ∷ ps) =
    let rest = output_updates context ps in
    elim (lookup p.1 context) [ none ↦ rest | some v ↦ (p.0, v) ∷ rest ]

abbrev parent_scope : WorkflowInstance → Option Execution → ℕ
parent_scope i none = 0
parent_scope i (some ex) = flow_scope_key ex.parent_id i

module _ (env : Env) where
  -- `json.Marshal`, or its error.
  unfoldable pub marshalled : String → Option String → Nav String
  marshalled name none = fail (marshal_failed name)
  marshalled name (some json) = pure json

  -- The row's key is drawn from the instance and the name; the scope is only announced.
  unfoldable pub persist_variable : ℕ → String × Value → Nav (Unit {0})
  persist_variable scope_key (name, value) = do
    json ← marshalled name (env.marshal value)
    instance_key ← asks (λ w. w.instance_.key)
    created_at ← draw env.now
    updated_at ← draw env.now
    let key = env.deterministic_key (env.show_number instance_key ++ "_" ++ name)
    store (λ db. record db {
      variables =
          create_variable (new_variable name key json instance_key created_at updated_at)
            db.variables;
    })
    emit (variable_updated name json instance_key scope_key updated_at)

  unfoldable pub persist_variables : ℕ → Variables → Nav (Unit {0})
  persist_variables scope_key [] = pure tt
  persist_variables scope_key (v ∷ vs) = do
    persist_variable scope_key v
    persist_variables scope_key vs

  -- With no updates nothing is written.
  unfoldable pub apply_updates : (WorkflowInstance → ℕ) → Variables → Nav (Unit {0})
  apply_updates scope [] = pure tt
  apply_updates scope (v ∷ vs) = do
    update_context (v ∷ vs)
    scope_key ← asks (λ w. scope w.instance_)
    persist_variables scope_key (v ∷ vs)

  unfoldable pub apply_input_mappings : StepFields → String → Nav (Unit {0})
  apply_input_mappings step exec_id = do
    context ← get_context
    apply_updates (λ i. key_or_zero (find_execution exec_id i.executions))
        (input_updates context step.input_parameters)

  unfoldable pub apply_output_mappings : StepFields → String → Nav (Unit {0})
  apply_output_mappings step exec_id = do
    context ← get_context
    apply_updates (λ i. parent_scope i (find_execution exec_id i.executions))
        (output_updates context step.output_parameters)
