-- ===== src/Navigation/Executors/Inputs.antt =====
-- Variables that the executors read and write: connectorInputsFromProperties of
-- connector_inputs.go, changedVariables of engine.go, and the exports of a script. The order of the
-- lists stands for the order of a map, which Go leaves open.
use flow_go.Prelude.{
  String, Bool, List, [], ◌∷◌, Option, none, some, ◌==◌, string_eq, if◌then◌else◌,
}
use flow_go.Prelude.Assoc.{lookup}
use flow_go.Prelude.Text.{is_empty, trim_space}
use flow_go.Model.Value.{Value, Fields, no_fields, add_field, Variables}

abbrev pub or_default : String → String → String
or_default a b = if is_empty a then b else a

unfoldable pub known_connector_input_keys : List String
known_connector_input_keys =
    "url" ∷ "method" ∷ "headers" ∷ "body" ∷ "timeoutMs" ∷ "failOnNon2xx" ∷ "webhookUrl" ∷ "payload"
    ∷ "webhookToken" ∷ "kafkaTopic" ∷ "kafkaKey" ∷ "kafkaValue" ∷ "emailTo" ∷ "emailSubject"
    ∷ "emailBody" ∷ "s3Bucket" ∷ "s3Key" ∷ "s3Body" ∷ "contentType" ∷ []

-- An input that is set, and is no blank text.
abbrev set_input : String → Option Value → Variables → Variables
set_input key none rest = rest
set_input key (some Value.nil) rest = rest
set_input key (some (Value.text s)) rest =
    if is_empty (trim_space s) then rest else (key, Value.text s) ∷ rest
set_input key (some v) rest = (key, v) ∷ rest

unfoldable pub inputs_of : Variables → List String → Variables
inputs_of props [] = []
inputs_of props (key ∷ keys) = set_input key (lookup key props) (inputs_of props keys)

unfoldable pub connector_inputs : Variables → Variables
unfolding inputs_of
connector_inputs props = inputs_of props known_connector_input_keys

-- The variables that the context does not have yet.
unfoldable pub missing_from : Variables → Variables → Variables
missing_from context [] = []
missing_from context (v ∷ vs) =
    let rest = missing_from context vs in
    elim (lookup v.0 context) [ some old ↦ rest | none ↦ v ∷ rest ]

abbrev pub value_or_nil : Option Value → Value
value_or_nil none = Value.nil
value_or_nil (some v) = v

-- `changedVariables`.
unfoldable pub changed_variables : (Value → Value → Bool) → Variables → Variables → Variables
changed_variables same before [] = []
changed_variables same before (v ∷ vs) =
    let rest = changed_variables same before vs in
    if same (value_or_nil (lookup v.0 before)) v.1 then rest else v ∷ rest

-- `instance.Context[k] = exported` for the globals of a script but `console` and nil.
unfoldable pub exported : Variables → Variables
exported [] = []
exported ((k, Value.nil) ∷ vs) = exported vs
exported ((k, v) ∷ vs) = let rest = exported vs in if k == "console" then rest else (k, v) ∷ rest

abbrev pub object_of : Variables → Fields
object_of [] = no_fields
object_of (v ∷ vs) = add_field v.0 v.1 (object_of vs)
