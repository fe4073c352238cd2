-- ===== src/Sync/Service.antt =====
-- `ProcessEvent` of backend/services/sync-worker/internal/application/service.go.
use Prim.Native.String.{◌++◌}
use flow_go.Prelude.{ℕ, String, List, [], ◌∷◌, Option, none, some}
use flow_go.Prelude.Int.{pos}
use flow_go.Model.Event.{Event}
use flow_go.Model.Value.{Value, Variables}
use flow_go.Sync.Search.{
  Place, Document, Script, Request, index_document, update_document, Elastic, and_then, call_all,
}

-- Go's texts of numbers and values, the FNV hash, and JSON.
pub record SyncEnv : Type 0 where
  pub show_number : ℕ → String
  pub show_value : Value → String
  pub deterministic_key : String → ℕ
  pub unmarshal : String → Option Value

-- What the type header and the payload of a message decode to.
pub data Incoming : Type 0 where
  event : Event → Incoming
  bad_payload : (error : String) → Incoming
  unknown_type : Incoming

abbrev pub number : ℕ → Value
number n = Value.int (pos n)

abbrev pub new_document : Variables → Document
new_document fields = record { fields = fields; context = none }

abbrev pub value_or_nil : Option Value → Value
value_or_nil none = Value.nil
value_or_nil (some v) = v

module _ (env : SyncEnv) where
  abbrev pub place_in : String → ℕ → Place
  place_in table key = record { table = table; id = env.show_number key }

  abbrev finished : String → ℕ → ℕ → Request
  finished table key end_time =
      update_document (place_in table key)
        (Script.set_fields (("state", Value.text "COMPLETED") ∷ ("end_time", number end_time) ∷ []))

  abbrev worked_on : ℕ → String → String → ℕ → Request
  worked_on key state worker updated_at = update_document (place_in "job" key) (
      Script.set_fields (
        ("state", Value.text state)
        ∷ ("worker", Value.text worker)
        ∷ ("updated_at", number updated_at)
        ∷ []))

  abbrev pub variable_key : ℕ → String → ℕ
  variable_key process_instance_key name =
      env.deterministic_key (env.show_number process_instance_key ++ "_" ++ name)

  -- The calls that an event leads to, in their order; `now` is the worker's clock.
  unfoldable pub requests_of : ℕ → Event → List Request
  requests_of now
        (Event.process_instance_created key id process_definition_key version bpmn_process_id
          created_at) =
      index_document (place_in "process_instance" key) (
        new_document (
          ("key", number key)
          ∷ ("id", Value.text id)
          ∷ ("process_definition_key", number process_definition_key)
          ∷ ("version", Value.int version)
          ∷ ("bpmn_process_id", Value.text bpmn_process_id)
          ∷ ("state", Value.text "ACTIVE")
          ∷ ("created_at", number created_at)
          ∷ []))
      ∷ []
  requests_of now (Event.process_instance_completed key process_definition_key end_time) =
      finished "process_instance" key end_time ∷ []
  requests_of now (Event.variable_updated name value process_instance_key scope_key updated_at) =
      index_document (place_in "variable" (variable_key process_instance_key name)) (
        new_document (
          ("key", number (variable_key process_instance_key name))
          ∷ ("name", Value.text name)
          ∷ ("value", Value.text value)
          ∷ ("process_instance_key", number process_instance_key)
          ∷ ("scope_key", number scope_key)
          ∷ ("updated_at", number updated_at)
          ∷ []))
      ∷ update_document (place_in "process_instance" process_instance_key)
          (Script.put_context name (value_or_nil (env.unmarshal value)))
      ∷ []
  requests_of now
        (Event.job_created key id type process_instance_key element_instance_key
          process_definition_key element_id created_at) =
      index_document (place_in "job" key) (
        new_document (
          ("key", number key)
          ∷ ("id", Value.text id)
          ∷ ("type", Value.text type)
          ∷ ("process_instance_key", number process_instance_key)
          ∷ ("element_instance_key", number element_instance_key)
          ∷ ("process_definition_key", number process_definition_key)
          ∷ ("element_id", Value.text element_id)
          ∷ ("state", Value.text "CREATED")
          ∷ ("created_at", number created_at)
          ∷ []))
      ∷ []
  requests_of now (Event.job_activated key worker lock_expiration_time) =
      worked_on key "ACTIVATED" worker now ∷ []
  requests_of now (Event.job_completed key worker updated_at) =
      worked_on key "COMPLETED" worker updated_at ∷ []
  requests_of now (Event.job_failed key worker retries error_message updated_at) =
      update_document (place_in "job" key) (
        Script.set_fields (
          ("state", Value.text "FAILED")
          ∷ ("retries", Value.int retries)
          ∷ ("error_message", Value.text error_message)
          ∷ ("updated_at", number updated_at)
          ∷ []))
      ∷ []
  requests_of now
        (Event.element_instance_activated key id process_instance_key process_definition_key
          element_id bpmn_element_type flow_scope_key created_at) =
      index_document (place_in "element_instance" key) (
        new_document (
          ("key", number key)
          ∷ ("id", Value.text id)
          ∷ ("process_instance_key", number process_instance_key)
          ∷ ("process_definition_key", number process_definition_key)
          ∷ ("element_id", Value.text element_id)
          ∷ ("bpmn_element_type", Value.text bpmn_element_type)
          ∷ ("flow_scope_key", number flow_scope_key)
          ∷ ("state", Value.text "ACTIVE")
          ∷ ("created_at", number created_at)
          ∷ []))
      ∷ []
  requests_of now (Event.element_instance_completed key process_instance_key element_id end_time) =
      finished "element_instance" key end_time ∷ []

  module _ (es : Elastic) where
    -- `ProcessEvent`.
    unfoldable pub process_event : ℕ → Incoming → es.Store → Option String × es.Store
    process_event now (event e) s = call_all es (requests_of now e) s
    process_event now (bad_payload error) s = (some ("failed to unmarshal: " ++ error), s)
    process_event now unknown_type s = (none, s)

    -- Events in the order of the log, each with the clock at its delivery, up to the first error.
    unfoldable pub process_events : List (ℕ × Event) → es.Store → Option String × es.Store
    process_events [] s = (none, s)
    process_events (d ∷ ds) s = and_then es (process_event d.0 (event d.1) s) (process_events ds)
