-- ===== src/Examples/Documents.antt =====
-- A search store in memory, and runs of the worker that writes to it.
use flow_go.Prelude.{
  ℕ, ◌≡◌, ◌≢◌, refl, List, [], ◌∷◌, ◌++◌, Option, none, some, if◌then◌else◌, Bool-cases, inl, inr,
}
use flow_go.Prelude.Int.{pos}
use flow_go.Prelude.Assoc.{lookup}
use flow_go.Examples.{id_of, id_of-injective}
use flow_go.Model.Event.{Event}
use flow_go.Model.Value.{Value, Variables}
use flow_go.Sync.Deliveries.{Redelivery, first_times, second_times}
use flow_go.Sync.Effects.{Cell, field, look, same_place, same_place_refl, same_place-eq}
use flow_go.Sync.Mirror.{contains, Op, row, no_row, extract_id, denormalize_variable}
use flow_go.Sync.NotFound.{denormalize_variable-forgets}
use flow_go.Sync.Order.{Life, started, place, after_both, process_event-reopens}
use flow_go.Sync.Replay.{delivered, process_events-replay}
use flow_go.Sync.Search.{
  Place, Document, Script, run_script, Request, place_of, Answer, Elastic, Healthy, call, call_all,
  error_of,
}
use flow_go.Sync.Service.{SyncEnv, event, place_in, requests_of, process_event, process_events}
use flow_go.Sync.States.{Kind, table_of, last_state, shown, process_events-shows}

abbrev pub Memory : Type 0
Memory = Place → Option Document

abbrev pub put : Place → Option Document → Memory → Memory
put p found s q = if same_place q p then found else s q

abbrev pub updated : Place → Script → Memory → Option Document → Answer × Memory
updated p script s none = (Answer.not_found, s)
updated p script s (some doc) = (Answer.accepted, put p (some (run_script script doc)) s)

abbrev pub answer : Request → Memory → Answer × Memory
answer (Request.index_document p doc) s = (Answer.accepted, put p (some doc) s)
answer (Request.update_document p script) s = updated p script s (s p)
answer (Request.delete_document p) s = (Answer.accepted, put p none s)

abbrev pub memory : Elastic
memory = record { Store = Memory; read = λ p s. s p; perform = answer }

put-here : (p : Place) (found : Option Document) (s : Memory) → put p found s p ≡ found
put-here p found s = rw (same_place_refl p) refl

put-elsewhere : (p q : Place) (found : Option Document) (s : Memory) → q ≢ p → put p found s q ≡ s q
put-elsewhere p q found s other = elim (Bool-cases (same_place q p)) [
  | inl e ↦ absurd (other (same_place-eq q p e))
  | inr e ↦ rw e refl
]

updated-elsewhere :
    (p q : Place) (script : Script) (s : Memory) (found : Option Document)
    → q ≢ p
    → (updated p script s found).1 q ≡ s q
updated-elsewhere p q script s none other = refl
updated-elsewhere p q script s (some doc) other = put-elsewhere p q _ s other

answer-elsewhere : (r : Request) (q : Place) (s : Memory) → q ≢ place_of r → (answer r s).1 q ≡ s q
answer-elsewhere (Request.index_document p doc) q s other = put-elsewhere p q _ s other
answer-elsewhere (Request.update_document p script) q s other =
    updated-elsewhere p q script s (s p) other
answer-elsewhere (Request.delete_document p) q s other = put-elsewhere p q _ s other

memory-Healthy : Healthy memory
memory-Healthy = record {
  index_accepted = λ p doc s. (refl, put-here p (some doc) s);
  update_accepted = λ p script doc s h. rw h (refl, put-here p (some (run_script script doc)) s);
  update_missing = λ p script s h. rw h refl;
  delete_removes = λ p s. put-here p none s;
  others_stay = answer-elsewhere;
}

abbrev pub texts : SyncEnv
texts = record {
  show_number = id_of;
  show_value = λ v. "14045";
  deterministic_key = λ s. 9;
  unmarshal = λ s. some (Value.text s);
}

abbrev pub empty_memory : Memory
empty_memory p = none

abbrev pub life : Life
life = record {
  key = 3;
  id = "i";
  process_definition_key = 2;
  version = pos 1;
  bpmn_process_id = "order";
  created_at = 5;
  end_time = 9;
}

abbrev log_start : List (ℕ × Event)
log_start = (1, started life) ∷ (2, Event.job_created 4 "j" "mail" 3 6 2 "send" 6) ∷ []

abbrev log_end : List Redelivery
log_end =
    record { what = Event.job_activated 4 "w1" 20; first = 3; again = 8 }
    ∷ record { what = Event.variable_updated "x" "1" 3 3 7; first = 4; again = 8 }
    ∷ record { what = Event.job_completed 4 "w1" 8; first = 5; again = 9 }
    ∷ []

abbrev log : List (ℕ × Event)
log = log_start ++ first_times log_end

log_processed : (process_events texts memory log empty_memory).0 ≡ none
unfolding process_events process_event requests_of call_all call error_of first_times id_of
log_processed = refl

process_events-replay_example :
    ((process_events texts memory
        (second_times log_end)
        (delivered texts memory memory-Healthy log empty_memory)).0
      ≡ none)
    × ((p : Place) (c : Cell)
        → c ≢ field "updated_at"
        → look c (
            delivered texts memory memory-Healthy
              (second_times log_end)
              (delivered texts memory memory-Healthy log empty_memory)
              p)
          ≡ look c (delivered texts memory memory-Healthy log empty_memory p))
process_events-replay_example =
    process_events-replay texts memory memory-Healthy log_start log_end empty_memory log_processed

process_events-shows_example :
    look
      (field "state")
      ((process_events texts memory log empty_memory).1 (place_in texts (table_of Kind.job) 4))
    ≡ shown (last_state Kind.job 4 log) none
process_events-shows_example =
    process_events-shows texts id_of-injective memory log Kind.job 4 empty_memory memory-Healthy
      log_processed

process_event-reopens_example :
    (look (field "state") (
        after_both texts memory memory-Healthy life 1 2 empty_memory
          (place texts memory memory-Healthy life))
      ≡ some (Value.text "COMPLETED"))
    × ((process_event texts memory 3
          (event (started life))
          (after_both texts memory memory-Healthy life 1 2 empty_memory)).0
        ≡ none)
    × (look (field "state") (
          (process_event texts memory 3
              (event (started life))
              (after_both texts memory memory-Healthy life 1 2 empty_memory)).1
            (place texts memory memory-Healthy life))
        ≡ some (Value.text "ACTIVE"))
    × (look (field "end_time") (
          (process_event texts memory 3
              (event (started life))
              (after_both texts memory memory-Healthy life 1 2 empty_memory)).1
            (place texts memory memory-Healthy life))
        ≡ none)
process_event-reopens_example =
    process_event-reopens texts memory memory-Healthy life 1 2 3 empty_memory

-- A store that is overloaded.
abbrev overloaded : Elastic
overloaded = record {
  Store = Memory;
  read = λ p s. s p;
  perform = λ r s. (Answer.refused "503 Service Unavailable", s);
}

abbrev deleted_variable : Variables
deleted_variable =
    ("key", Value.int (pos 9))
    ∷ ("process_instance_key", Value.int (pos 14045))
    ∷ ("name", Value.text "x")
    ∷ []

denormalize_variable-forgets_example :
    (denormalize_variable texts overloaded
      (record { before = row deleted_variable; after = no_row; op = Op.delete })
      empty_memory).0
    ≡ none
unfolding extract_id lookup contains
denormalize_variable-forgets_example =
    denormalize_variable-forgets texts overloaded deleted_variable no_row (Value.int (pos 14045))
      (Value.text "x") "14045" "503 Service Unavailable" empty_memory refl refl refl refl refl
