-- ===== src/Engine/Codec.antt =====
-- `unmarshalOutboxEvent` of backend/services/workflow-command/internal/application/engine.go.
-- Protocol buffers are third-party code: `Codec` is what the engine relies on. It knows messages by
-- their kind, and not by the names that the outbox stores.
use Prim.Native.String.{◌++◌}
use flow_go.Prelude.{
  ℕ, String, ◌≡◌, refl, List, some, Option, none, ◌==◌, string_eq, if◌then◌else◌, ap,
}
use flow_go.Model.Event.{Event, event_type}

-- The message types of events.pb.go.
pub data MessageKind : Type 0 where
  process_instance_created element_instance_activated variable_updated : MessageKind
  element_instance_completed process_instance_completed : MessageKind
  job_created job_activated job_completed job_failed : MessageKind

-- The message that each event is.
unfoldable pub kind_of : Event → MessageKind
kind_of (Event.process_instance_created _ _ _ _ _ _) = MessageKind.process_instance_created
kind_of (Event.element_instance_activated _ _ _ _ _ _ _ _) = MessageKind.element_instance_activated
kind_of (Event.variable_updated _ _ _ _ _) = MessageKind.variable_updated
kind_of (Event.element_instance_completed _ _ _ _) = MessageKind.element_instance_completed
kind_of (Event.process_instance_completed _ _ _) = MessageKind.process_instance_completed
kind_of (Event.job_created _ _ _ _ _ _ _ _) = MessageKind.job_created
kind_of (Event.job_activated _ _ _) = MessageKind.job_activated
kind_of (Event.job_completed _ _ _) = MessageKind.job_completed
kind_of (Event.job_failed _ _ _ _ _) = MessageKind.job_failed

-- The result of `proto.Unmarshal` into a message of a kind.
pub data Decoded : Type 0 where
  event : Event → Decoded
  failure : String → Decoded

pub record Codec : Type 0 where
  pub marshal : Event → Option (List ℕ)
  pub unmarshal : MessageKind → List ℕ → Decoded
  -- The documented behaviour: what `Marshal` writes, `Unmarshal` reads back into an empty message
  -- of the same type.
  pub reads_back :
      (e : Event) (bytes : List ℕ) → marshal e ≡ some bytes → unmarshal (kind_of e) bytes ≡ event e

-- The cases of the `switch`: the message that is read for a type name.
unfoldable pub message_for : String → Option MessageKind
message_for t =
    if t == "ProcessInstanceCreated"
    then some MessageKind.process_instance_created
    else if t == "ElementInstanceActivated"
    then some MessageKind.element_instance_activated
    else if t == "VariableUpdated"
    then some MessageKind.variable_updated
    else if t == "ElementInstanceCompleted"
    then some MessageKind.element_instance_completed
    else if t == "ProcessInstanceCompleted"
    then some MessageKind.process_instance_completed
    else if t == "JobCreated"
    then some MessageKind.job_created
    else if t == "JobActivated"
    then some MessageKind.job_activated
    else if t == "JobCompleted"
    then some MessageKind.job_completed
    else if t == "JobFailed"
    then some MessageKind.job_failed
    else none

abbrev wrap_failure : Decoded → Decoded
wrap_failure (event e) = event e
wrap_failure (failure reason) = failure ("failed to unmarshal event payload: " ++ reason)

abbrev unmarshal_into : Codec → String → Option MessageKind → List ℕ → Decoded
unmarshal_into codec t none payload = failure ("unsupported event type \"" ++ t ++ "\"")
unmarshal_into codec t (some kind) payload = wrap_failure (codec.unmarshal kind payload)

unfoldable pub unmarshal_outbox_event : Codec → String → List ℕ → Decoded
unfolding message_for
unmarshal_outbox_event codec t payload = unmarshal_into codec t (message_for t) payload

-- The name under which an event is published picks its own message in the switch.
pub message_for-event_type : (e : Event) → message_for (event_type e) ≡ some (kind_of e)
unfolding message_for event_type kind_of
message_for-event_type (Event.process_instance_created _ _ _ _ _ _) = refl
message_for-event_type (Event.element_instance_activated _ _ _ _ _ _ _ _) = refl
message_for-event_type (Event.variable_updated _ _ _ _ _) = refl
message_for-event_type (Event.element_instance_completed _ _ _ _) = refl
message_for-event_type (Event.process_instance_completed _ _ _) = refl
message_for-event_type (Event.job_created _ _ _ _ _ _ _ _) = refl
message_for-event_type (Event.job_activated _ _ _) = refl
message_for-event_type (Event.job_completed _ _ _) = refl
message_for-event_type (Event.job_failed _ _ _ _ _) = refl

-- The names that `Publish` stores and the cases of the switch agree: for every event that the
-- engine publishes, the switch picks the message that the event is, so that what was marshalled is
-- decoded to itself and no payload is read as another message; and no two messages have the same
-- name.
pub unmarshal_outbox_event-marshal :
    (codec : Codec) (e e' : Event) (bytes : List ℕ)
    → codec.marshal e ≡ some bytes
    → (unmarshal_outbox_event codec (event_type e) bytes ≡ Decoded.event e)
      × (event_type e ≡ event_type e' → kind_of e ≡ kind_of e')
unfolding unmarshal_outbox_event
unmarshal_outbox_event-marshal codec e e' bytes h = (
  rw (message_for-event_type e, codec.reads_back e bytes h),
  λ same. cc (message_for-event_type e, message_for-event_type e', ap message_for same),
)
