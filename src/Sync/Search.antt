-- ===== src/Sync/Search.antt =====
-- The search store that documents are written to (backend/libs/elasticsearch/repository.go). The
-- store itself is a parameter, with the documented behaviour of a store that answers every request
-- as the record `Healthy`. An index is the prefix of the worker and a table; the prefix never
-- changes and is left out.
use Prim.Native.String.{◌++◌}
use flow_go.Prelude.{String, ◌≡◌, ◌≢◌, List, [], ◌∷◌, Option, none, some}
use flow_go.Prelude.Assoc.{insert, remove}
use flow_go.Model.Value.{Value, Variables}

pub record Place : Type 0 where
  pub table : String
  pub id : String

-- A document: its fields, and the variables under the field `context`, if there is one.
pub record Document : Type 0 where
  pub fields : Variables
  pub context : Option Variables

-- The scripts of the worker, by what they do: assign fields, put a variable into the context, which
-- is made if there is none, or remove one from it.
pub data Script : Type 0 where
  set_fields : Variables → Script
  put_context : (name : String) (value : Value) → Script
  remove_context : (name : String) → Script

unfoldable pub insert_all : Variables → Variables → Variables
insert_all [] fields = fields
insert_all (v ∷ vs) fields = insert_all vs (insert v.0 v.1 fields)

abbrev pub context_or_new : Option Variables → Variables
context_or_new none = []
context_or_new (some context) = context

abbrev pub removed_from : String → Option Variables → Option Variables
removed_from name none = none
removed_from name (some context) = some (remove name context)

unfoldable pub run_script : Script → Document → Document
run_script (Script.set_fields vs) doc = record doc { fields = insert_all vs doc.fields }
run_script (Script.put_context name value) doc = record doc {
  context = some (insert name value (context_or_new doc.context));
}
run_script (Script.remove_context name) doc = record doc { context = removed_from name doc.context }

pub data Request : Type 0 where
  index_document : Place → Document → Request
  update_document : Place → Script → Request
  delete_document : Place → Request

abbrev pub place_of : Request → Place
place_of (Request.index_document p doc) = p
place_of (Request.update_document p script) = p
place_of (Request.delete_document p) = p

-- How a request ends: a status that is no error, one that is, or no answer.
pub data Answer : Type 0 where
  accepted : Answer
  not_found : Answer
  refused : (status : String) → Answer
  unreachable : (error : String) → Answer

pub record Elastic : Type 1 where
  pub Store : Type 0
  pub read : Place → Store → Option Document
  pub perform : Request → Store → Answer × Store

-- The text of an error status.
abbrev status_error : String → Place → String → Option String
status_error operation p status = some (
    "elasticsearch " ++ operation ++ " failed: index=" ++ p.table ++ " id=" ++ p.id ++ " status="
    ++ status)

-- `Upsert`, `UpdateWithScript` and `Delete`: the error that an answer is turned into.
unfoldable pub error_of : Request → Answer → Option String
error_of r Answer.accepted = none
error_of r (Answer.unreachable error) = some error
error_of (Request.index_document p doc) Answer.not_found = status_error "upsert" p "404 Not Found"
error_of (Request.index_document p doc) (Answer.refused status) = status_error "upsert" p status
error_of (Request.update_document p script) Answer.not_found =
    status_error "update_with_script" p "404 Not Found"
error_of (Request.update_document p script) (Answer.refused status) =
    status_error "update_with_script" p status
error_of (Request.delete_document p) Answer.not_found = none
error_of (Request.delete_document p) (Answer.refused status) = status_error "delete" p status

module _ (es : Elastic) where
  abbrev with_error : Request → Answer × es.Store → Option String × es.Store
  with_error r (answer, s) = (error_of r answer, s)

  -- A call of the repository.
  unfoldable pub call : Request → es.Store → Option String × es.Store
  call r s = with_error r (es.perform r s)

  abbrev pub and_then :
      Option String × es.Store → (es.Store → Option String × es.Store) → Option String × es.Store
  and_then (none, s) k = k s
  and_then (some e, s) k = (some e, s)

  -- Calls in order, up to the first error.
  unfoldable pub call_all : List Request → es.Store → Option String × es.Store
  call_all [] s = (none, s)
  call_all (r ∷ rs) s = and_then (call r s) (call_all rs)

-- What a store that answers every request does with it.
pub record Healthy (es : Elastic) : Type 0 where
  pub index_accepted :
      (p : Place) (doc : Document) (s : es.Store)
      → ((es.perform (Request.index_document p doc) s).0 ≡ Answer.accepted)
        × (es.read p (es.perform (Request.index_document p doc) s).1 ≡ some doc)
  pub update_accepted :
      (p : Place) (script : Script) (doc : Document) (s : es.Store)
      → es.read p s ≡ some doc
      → ((es.perform (Request.update_document p script) s).0 ≡ Answer.accepted)
        × (es.read p (es.perform (Request.update_document p script) s).1
            ≡ some (run_script script doc))
  pub update_missing :
      (p : Place) (script : Script) (s : es.Store)
      → es.read p s ≡ none
      → (es.perform (Request.update_document p script) s).0 ≡ Answer.not_found
  pub delete_removes :
      (p : Place) (s : es.Store) → es.read p (es.perform (Request.delete_document p) s).1 ≡ none
  pub others_stay :
      (r : Request) (p : Place) (s : es.Store)
      → p ≢ place_of r
      → es.read p (es.perform r s).1 ≡ es.read p s
