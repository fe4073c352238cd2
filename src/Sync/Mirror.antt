-- ===== src/Sync/Mirror.antt =====
-- Rows that Debezium captures (`ProcessMessage` and denormalizeVariable of
-- backend/services/sync-worker/internal/application/service.go).
use Prim.Native.Char.{code}
use Prim.Native.String.{◌++◌}
use flow_go.Prelude.{
  String, Bool, true, false, ◌||◌, Option, none, some, ◌==◌, nat_beq, string_eq, if◌then◌else◌,
}
use flow_go.Prelude.Assoc.{lookup}
use flow_go.Model.Value.{Value, Variables}
use flow_go.Sync.Search.{
  Place, Script, Request, index_document, update_document, delete_document, Elastic, and_then, call,
}
use flow_go.Sync.Service.{SyncEnv, new_document}

pub data Op : Type 0 where
  create update read delete other : Op

-- A row before or after a change: none, or what the JSON decodes to.
pub data Row : Type 0 where
  no_row : Row
  bad_row : (error : String) → Row
  row : Variables → Row

pub record DebeziumMessage : Type 0 where
  pub before : Row
  pub after : Row
  pub op : Op

abbrev pub has_prefix : String → String → Bool
has_prefix String.[] s = true
has_prefix (String.◌∷◌ c p) String.[] = false
has_prefix (String.◌∷◌ c p) (String.◌∷◌ d s) =
    let rest = has_prefix p s in if nat_beq (code c) (code d) then rest else false

-- `strings.Contains(s, part)`.
unfoldable pub contains : String → String → Bool
contains part String.[] = has_prefix part ""
contains part (String.◌∷◌ c s) = has_prefix part (String.◌∷◌ c s) || contains part s

-- `strings.HasSuffix(s, end)`.
unfoldable pub has_suffix : String → String → Bool
has_suffix end String.[] = "" == end
has_suffix end (String.◌∷◌ c s) = String.◌∷◌ c s == end || has_suffix end s

-- The text of the column that is the key: `key`, or else `scope_key`.
abbrev or_scope_key : SyncEnv → Option Value → Option Value → Option String
or_scope_key env (some key) scope_key = some (env.show_value key)
or_scope_key env none (some scope_key) = some (env.show_value scope_key)
or_scope_key env none none = none

-- `extractIDAndDoc`.
unfoldable pub extract_id : SyncEnv → Variables → Option String
extract_id env doc = or_scope_key env (lookup "key" doc) (lookup "scope_key" doc)

abbrev pub no_id : String
no_id = "unable to determine document id (expected key or scope_key)"

-- The value of a variable: a text that is JSON is decoded.
abbrev decoded_or : Value → Option Value → Value
decoded_or v none = v
decoded_or v (some w) = w

abbrev pub variable_value : SyncEnv → Value → Value
variable_value env (Value.text s) = decoded_or (Value.text s) (env.unmarshal s)
variable_value env v = v

abbrev pub is_delete : Op → Bool
is_delete Op.delete = true
is_delete _ = false

module _ (env : SyncEnv) (es : Elastic) where
  -- An error that mentions 404 is dropped.
  abbrev pub forgiven : Option String × es.Store → Option String × es.Store
  forgiven (none, s) = (none, s)
  forgiven (some e, s) = if contains "404" e then (none, s) else (some e, s)

  abbrev pub instance_place : Value → Place
  instance_place key = record { table = "process_instance"; id = env.show_value key }

  unfoldable pub remove_variable : Value → Value → es.Store → Option String × es.Store
  remove_variable key name s = forgiven (
      call es (update_document (instance_place key) (Script.remove_context (env.show_value name)))
        s)

  unfoldable pub put_variable : Value → Value → Option Value → es.Store → Option String × es.Store
  put_variable key name none s = (none, s)
  put_variable key name (some value) s =
      call es
        (update_document (instance_place key)
          (Script.put_context (env.show_value name) (variable_value env value)))
        s

  unfoldable pub denormalize_columns :
      Bool → Option Value → Option Value → Option Value → es.Store → Option String × es.Store
  denormalize_columns deletes none name value s =
      (some "process_instance_key missing in variable", s)
  denormalize_columns deletes (some key) none value s = (some "name missing in variable", s)
  denormalize_columns deletes (some key) (some name) value s =
      if deletes then remove_variable key name s else put_variable key name value s

  abbrev denormalize_with_id :
      Bool → Variables → Option String → es.Store → Option String × es.Store
  denormalize_with_id deletes doc none s = (some no_id, s)
  denormalize_with_id deletes doc (some id) s =
      denormalize_columns deletes (lookup "process_instance_key" doc) (lookup "name" doc)
        (lookup "value" doc) s

  unfoldable pub denormalize_row : Bool → Row → es.Store → Option String × es.Store
  denormalize_row deletes no_row s = (none, s)
  denormalize_row deletes (bad_row error) s = (some error, s)
  denormalize_row deletes (row doc) s = denormalize_with_id deletes doc (extract_id env doc) s

  -- `denormalizeVariable`.
  unfoldable pub denormalize_variable : DebeziumMessage → es.Store → Option String × es.Store
  denormalize_variable m s =
      denormalize_row (is_delete m.op) (if is_delete m.op then m.before else m.after) s

  -- An error with a text in front of it.
  abbrev prefixed : String → Option String × es.Store → Option String × es.Store
  prefixed text (none, s) = (none, s)
  prefixed text (some e, s) = (some (text ++ e), s)

  -- The second part: a variable goes into its process instance as well.
  unfoldable pub denormalized : String → DebeziumMessage → es.Store → Option String × es.Store
  denormalized table m s =
      if has_suffix "variable" table
      then prefixed "failed to denormalize variable: " (denormalize_variable m s)
      else (none, s)

  abbrev mirror_with_id :
      String
      → DebeziumMessage
      → (String → Request)
      → (text missing : String) → Option String
      → es.Store
      → Option String × es.Store
  mirror_with_id table m request text missing none s = (some (missing ++ no_id), s)
  mirror_with_id table m request text missing (some id) s =
      and_then es (prefixed text (call es (request id) s)) (denormalized table m)

  abbrev upsert_row : String → Variables → String → Request
  upsert_row table doc id = index_document (record { table = table; id = id }) (new_document doc)

  abbrev delete_row : String → String → Request
  delete_row table id = delete_document (record { table = table; id = id })

  unfoldable pub mirror_after : String → DebeziumMessage → Row → es.Store → Option String × es.Store
  mirror_after table m no_row s = (none, s)
  mirror_after table m (bad_row error) s = (some ("failed to extract id/doc: " ++ error), s)
  mirror_after table m (row doc) s =
      mirror_with_id table m (upsert_row table doc) "upsert failed: " "failed to extract id/doc: "
        (extract_id env doc) s

  unfoldable pub mirror_before :
      String → DebeziumMessage → Row → es.Store → Option String × es.Store
  mirror_before table m no_row s = (none, s)
  mirror_before table m (bad_row error) s = (some ("failed to extract id for delete: " ++ error), s)
  mirror_before table m (row doc) s =
      mirror_with_id table m (delete_row table) "delete failed: "
        "failed to extract id for delete: " (extract_id env doc) s

  -- `ProcessMessage`, for a topic that names this table.
  unfoldable pub process_message : String → DebeziumMessage → es.Store → Option String × es.Store
  process_message table m s = elim m.op [
    | Op.create ↦ mirror_after table m m.after s
    | Op.update ↦ mirror_after table m m.after s
    | Op.read ↦ mirror_after table m m.after s
    | Op.delete ↦ mirror_before table m m.before s
    | Op.other ↦ denormalized table m s
  ]
