-- ===== src/Sync/NotFound.antt =====
-- Errors that removing a captured variable drops (denormalizeVariable of service.go).
use Prim.Native.String.{◌++◌}
use Prim.Native.String.append
use flow_go.Prelude.{String, ◌≡◌, refl, true, none, some, arith, Bool-cases, inl, inr}
use flow_go.Prelude.Assoc.{lookup}
use flow_go.Model.Value.{Value, Variables}
use flow_go.Sync.Mirror.{
  has_prefix, contains, instance_place, forgiven, remove_variable, Op, Row, row, extract_id,
  denormalize_variable, denormalize_row, denormalize_columns,
}
use flow_go.Sync.Search.{Script, update_document, Answer, Elastic, call, error_of}
use flow_go.Sync.Service.{SyncEnv}

has_prefix-append : (part s t : String) → has_prefix part s ≡ true → has_prefix part (s ++ t) ≡ true
has_prefix-append String.[] s t h = refl
has_prefix-append (String.◌∷◌ c p) String.[] t h = cc h
has_prefix-append (String.◌∷◌ c p) (String.◌∷◌ d s) t h =
    rw (append.cons d s t) (ground (arith, has_prefix-append p s t))

contains-none : (s : String) → contains "" s ≡ true
unfolding contains
contains-none String.[] = refl
contains-none (String.◌∷◌ c s) = refl

contains-right : (part s t : String) → contains part t ≡ true → contains part (s ++ t) ≡ true
unfolding contains
contains-right part String.[] t h = rw (append.nil t) h
contains-right part (String.◌∷◌ c s) t h =
    rw (append.cons c s t) (ground (arith, contains-right part s t h))

contains-start : (part s : String) → has_prefix part s ≡ true → contains part s ≡ true
unfolding contains
contains-start part String.[] h = h
contains-start part (String.◌∷◌ c s) h = ground (arith)

contains-left : (part s t : String) → contains part s ≡ true → contains part (s ++ t) ≡ true
unfolding contains
contains-left part String.[] t h = contains-start part ("" ++ t) (has_prefix-append part "" t h)
contains-left part (String.◌∷◌ c s) t h = elim (Bool-cases (has_prefix part (String.◌∷◌ c s))) [
  | inl e ↦ contains-start part (String.◌∷◌ c s ++ t) (has_prefix-append part (String.◌∷◌ c s) t e)
  | inr e ↦ rw (append.cons c s t) (ground (arith, contains-left part s t, e, h))
]

update_error-mentions :
    (table id status : String)
    → contains "404" id ≡ true
    → contains "404" (
        "elasticsearch " ++ "update_with_script" ++ " failed: index=" ++ table ++ " id=" ++ id
        ++ " status=" ++ status)
      ≡ true
update_error-mentions table id status h = contains-right "404" "elasticsearch " _ (
    contains-right "404" "update_with_script" _ (
      contains-right "404" " failed: index=" _ (
        contains-right "404" table _
          (contains-right "404" " id=" _ (contains-left "404" id (" status=" ++ status) h)))))

module _ (env : SyncEnv) (es : Elastic) where
  forgiven_if_mentioned :
      (e : String) (s : es.Store) → contains "404" e ≡ true → (forgiven env es (some e, s)).0 ≡ none
  forgiven_if_mentioned e s h = rw h refl

  -- When the deletion of a variable is captured, with a key of its own, and the digits of its
  -- instance's key contain 404, then no error is reported whatever status the store refuses the
  -- script with.
  pub denormalize_variable-forgets :
      (doc : Variables) (after : Row) (key name : Value) (id status : String) (s : es.Store)
      → extract_id env doc ≡ some id
      → lookup "process_instance_key" doc ≡ some key
      → lookup "name" doc ≡ some name
      → contains "404" (env.show_value key) ≡ true
      → (es.perform
          (update_document
            (instance_place env es key)
            (Script.remove_context (env.show_value name)))
          s).0
        ≡ Answer.refused status
      → (denormalize_variable env es
          (record { before = row doc; after = after; op = Op.delete })
          s).0
        ≡ none
  unfolding denormalize_variable denormalize_row denormalize_columns remove_variable call error_of
  denormalize_variable-forgets doc after key name id status s found has_key has_name mentioned h =
      rw (found, has_key, has_name, h)
        (forgiven_if_mentioned _ _
          (update_error-mentions "process_instance" (env.show_value key) status mentioned))
