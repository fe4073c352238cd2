-- ===== src/Navigation/World.antt =====
-- The state of a navigation, its monad and the changes it is made of. Drawing an identifier or a
-- key and reading the clock all advance one counter, which indexes the answers of the surroundings.
use flow_go.Prelude.{
  ℕ, zero, suc, String, List, [], ◌∷◌, ◌++◌, Option, none, some, ◌==◌, nat_eq, string_eq,
  if◌then◌else◌,
}
use flow_go.Model.Event.{Event}
use flow_go.Model.Value.{Value, Variables}
use flow_go.Model.Workflow.{Execution, ExecutionStatus, Steps, WorkflowInstance, WorkflowStatus}
use flow_go.Repository.{Db}
use flow_go.Engine.Tx.{Session}
use flow_go.Gateway.{JsResult}
use flow_go.Timers.Schedule.{Clock}

pub record WorkflowDefinition : Type 0 where
  pub id : ℕ
  pub steps : Steps

pub record World : Type 0 where
  pub session : Session
  pub instance_ : WorkflowInstance
  pub draws : ℕ

-- The errors of a navigation; the texts name the constructors. `BpmnError` is the one that boundary
-- events catch, `other` is any error of code that is not modelled.
pub data Failure : Type 0 where
  bpmn_error : (code message : String) → Failure
  execution_not_found step_not_found mi_parent_not_found marshal_failed : String → Failure
  no_path unknown_step endless_search out_of_fuel : Failure
  output_mapping input_mapping : Failure → Failure
  other : String → Failure

pub data Outcome {ℓ} (A : Type ℓ) : Type ℓ where
  done : A → Outcome A
  failed : Failure → Outcome A

abbrev pub Nav : Type 0 → Type 0
Nav A = World → Outcome A × World

-- What surrounds the engine: the generators of identifiers and keys, the clock, JavaScript, JSON,
-- and Go's `%v` and error texts.
pub record Env : Type 0 where
  pub uuid : ℕ → String
  pub snowflake : ℕ → ℕ
  pub now : ℕ → ℕ
  pub javascript : Variables → String → JsResult
  pub marshal : Value → Option String
  pub deterministic_key : String → ℕ
  pub show_value : Value → String
  pub show_number : ℕ → String
  pub error_text : Failure → String
  pub clock : Clock

unfoldable pub pure : {A : Type 0} → A → Nav A
pure a w = (done a, w)

unfoldable pub fail : {A : Type 0} → Failure → Nav A
fail e w = (failed e, w)

abbrev pub then_ : {A B : Type 0} → Outcome A × World → (A → Nav B) → Outcome B × World
then_ (done a, w) f = f a w
then_ (failed e, w) f = (failed e, w)

infixl 5 ◌>>=◌ ◌>>◌
unfoldable pub ◌>>=◌ : {A B : Type 0} → Nav A → (A → Nav B) → Nav B
◌>>=◌ m f w = then_ (m w) f

unfoldable pub ◌>>◌ : {A B : Type 0} → Nav A → Nav B → Nav B
unfolding ◌>>=◌
m >> k = m >>= λ _. k

-- A read of the state.
unfoldable pub asks : {A : Type 0} → (World → A) → Nav A
asks f w = (done (f w), w)

-- The next answer of the surroundings.
unfoldable pub draw : {A : Type 0} → (ℕ → A) → Nav A
draw f w = (done (f w.draws), record w { draws = suc w.draws })

-- A change of the tables, and an event for the buffer.
unfoldable pub store : (Db → Db) → Nav (Unit {0})
store f w = (done tt, record w { session = record w.session { db = f w.session.db } })

unfoldable pub emit : Event → Nav (Unit {0})
emit e w =
    (done tt, record w { session = record w.session { events = w.session.events ++ e ∷ [] } })

-- Lists by index.
module _ {ℓ} {A : Type ℓ} where
  unfoldable pub modify_at : ℕ → (A → A) → List A → List A
  modify_at i f [] = []
  modify_at zero f (x ∷ xs) = f x ∷ xs
  modify_at (suc i) f (x ∷ xs) = x ∷ modify_at i f xs

  unfoldable pub elem_at : ℕ → List A → Option A
  elem_at i [] = none
  elem_at zero (x ∷ xs) = some x
  elem_at (suc i) (x ∷ xs) = elem_at i xs

unfoldable pub change_executions : (List Execution → List Execution) → Nav (Unit {0})
change_executions f w =
    (done tt, record w { instance_ = record w.instance_ { executions = f w.instance_.executions } })

-- `instance.Executions[i].Status = status`.
unfoldable pub set_status : ℕ → ExecutionStatus → Nav (Unit {0})
unfolding change_executions modify_at
set_status i status = change_executions (modify_at i (λ ex. record ex { status = status }))

-- `instance.Executions[i] = e`.
unfoldable pub put_execution : ℕ → Execution → Nav (Unit {0})
unfolding change_executions modify_at
put_execution i e = change_executions (modify_at i (λ _. e))

unfoldable pub append_execution : Execution → Nav (Unit {0})
unfolding change_executions
append_execution e = change_executions (λ exs. exs ++ e ∷ [])

unfoldable pub set_context : Variables → Nav (Unit {0})
set_context context w = (done tt, record w { instance_ = record w.instance_ { context = context } })

unfoldable pub mark_completed : Nav (Unit {0})
mark_completed w =
    (done tt, record w { instance_ = record w.instance_ { status = WorkflowStatus.completed } })

-- The loops that look for an execution by its id.
unfoldable pub index_of : ℕ → String → List Execution → Option ℕ
index_of i id [] = none
index_of i id (ex ∷ exs) =
    let rest = index_of (suc i) id exs in if ex.id == id then some i else rest

unfoldable pub find_execution : String → List Execution → Option Execution
find_execution id [] = none
find_execution id (ex ∷ exs) =
    let rest = find_execution id exs in if ex.id == id then some ex else rest
