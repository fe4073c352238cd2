-- ===== src/Sync/Order.antt =====
-- An event that is delivered again after later ones (`ProcessEvent` of service.go).
use flow_go.Prelude.{ℕ, String, ◌≡◌, refl, ap, ◌∙◌, [], ◌∷◌, none, some}
use flow_go.Prelude.Int.{ℤ}
use flow_go.Prelude.Assoc.{lookup}
use flow_go.Model.Event.{Event}
use flow_go.Model.Value.{Value}
use flow_go.Sync.Effects.{field, look, look-run_script, assigned}
use flow_go.Sync.Search.{Place, Document, Script, Elastic, Healthy, error_of, call, call_all}
use flow_go.Sync.Service.{
  SyncEnv, event, place_in, new_document, number, requests_of, process_event,
}

-- The events of an instance that starts and ends.
pub record Life : Type 0 where
  pub key : ℕ
  pub id : String
  pub process_definition_key : ℕ
  pub version : ℤ
  pub bpmn_process_id : String
  pub created_at : ℕ
  pub end_time : ℕ

abbrev pub started : Life → Event
started l =
    Event.process_instance_created l.key l.id l.process_definition_key l.version l.bpmn_process_id
      l.created_at

abbrev pub ended : Life → Event
ended l = Event.process_instance_completed l.key l.process_definition_key l.end_time

module _ (env : SyncEnv) (es : Elastic) (healthy : Healthy es) where
  abbrev pub place : Life → Place
  place l = place_in env "process_instance" l.key

  abbrev first_document : Life → Document
  first_document l = new_document (
      ("key", number l.key)
      ∷ ("id", Value.text l.id)
      ∷ ("process_definition_key", number l.process_definition_key)
      ∷ ("version", Value.int l.version)
      ∷ ("bpmn_process_id", Value.text l.bpmn_process_id)
      ∷ ("state", Value.text "ACTIVE")
      ∷ ("created_at", number l.created_at)
      ∷ [])

  abbrev finish : Life → Script
  finish l =
      Script.set_fields (("state", Value.text "COMPLETED") ∷ ("end_time", number l.end_time) ∷ [])

  start-writes :
      (l : Life) (now : ℕ) (s : es.Store)
      → ((process_event env es now (event (started l)) s).0 ≡ none)
        × (es.read (place l) (process_event env es now (event (started l)) s).1
            ≡ some (first_document l))
  unfolding process_event requests_of call_all call error_of
  start-writes l now s =
      let law = healthy.index_accepted (place l) (first_document l) s in rw law.0 (refl, law.1)

  end-writes :
      (l : Life) (doc : Document) (now : ℕ) (s : es.Store)
      → es.read (place l) s ≡ some doc
      → ((process_event env es now (event (ended l)) s).0 ≡ none)
        × (look (field "state") (es.read (place l) (process_event env es now (event (ended l)) s).1)
            ≡ some (Value.text "COMPLETED"))
  unfolding process_event requests_of call_all call error_of assigned
  end-writes l doc now s found =
      let law = healthy.update_accepted (place l) (finish l) doc s found in
      rw law.0
        (refl, ap (look (field "state")) law.1 ∙ look-run_script (finish l) (field "state") doc)

  -- The store after two events.
  abbrev pub after_both : Life → ℕ → ℕ → es.Store → es.Store
  after_both l now later s =
      (process_event env es later (event (ended l))
        (process_event env es now (event (started l)) s).1).1

  -- A store that answers every request shows an instance as COMPLETED after its start and its end
  -- were processed. If the event of its start is then delivered once more, the document shows the
  -- instance as ACTIVE, with no end time, and no error is reported.
  pub process_event-reopens :
      (l : Life) (now later again : ℕ) (s : es.Store)
      → (look (field "state") (es.read (place l) (after_both l now later s))
          ≡ some (Value.text "COMPLETED"))
        × ((process_event env es again (event (started l)) (after_both l now later s)).0 ≡ none)
        × (look (field "state") (
              es.read
                (place l)
                (process_event env es again (event (started l)) (after_both l now later s)).1)
            ≡ some (Value.text "ACTIVE"))
        × (look (field "end_time") (
              es.read
                (place l)
                (process_event env es again (event (started l)) (after_both l now later s)).1)
            ≡ none)
  unfolding lookup
  process_event-reopens l now later again s =
      let first = start-writes l now s in
      let done =
        end-writes l (first_document l) later (process_event env es now (event (started l)) s).1
          first.1 in
      let once_more = start-writes l again (after_both l now later s) in
      (
        done.1,
        once_more.0,
        ap (look (field "state")) once_more.1,
        ap (look (field "end_time")) once_more.1,
      )
