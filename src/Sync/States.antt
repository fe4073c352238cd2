-- ===== src/Sync/States.antt =====
-- The states that the read side shows, against the log (`ProcessEvent` of service.go).
use flow_go.Prelude.{
  ℕ, String, ◌≡◌, refl, sym, ap, ◌∙◌, Bool, true, false, ◌&&◌, List, [], ◌∷◌, Option, none, some,
  arith, ◌==◌, string_eq, nat_eq, if◌then◌else◌, eq_iff,
}
use flow_go.Prelude.Assoc.{lookup}
use flow_go.Model.Event.{Event}
use flow_go.Model.Value.{Value}
use flow_go.Sync.Deliveries.{calls_for}
use flow_go.Sync.Effects.{
  field, look, apply, Effect, assigned, or_earlier, effects, effects-append, same_place,
}
use flow_go.Sync.Replay.{delivered-look}
use flow_go.Sync.Search.{Elastic, Healthy}
use flow_go.Sync.Service.{SyncEnv, place_in, requests_of, process_events}

-- What has a state, and the table of its documents.
pub data Kind : Type 0 where
  process_instance element_instance job : Kind

abbrev pub table_of : Kind → String
table_of Kind.process_instance = "process_instance"
table_of Kind.element_instance = "element_instance"
table_of Kind.job = "job"

abbrev same_kind : Kind → Kind → Bool
same_kind Kind.process_instance Kind.process_instance = true
same_kind Kind.element_instance Kind.element_instance = true
same_kind Kind.job Kind.job = true
same_kind _ _ = false

abbrev pub said_if : Bool → String → Option String
said_if b state = if b then some state else none

-- The state that an event gives the thing of this kind with this key.
unfoldable pub state_said : Kind → ℕ → Event → Option String
state_said kind k (Event.process_instance_created key _ _ _ _ _) =
    said_if (same_kind kind Kind.process_instance && k == key) "ACTIVE"
state_said kind k (Event.process_instance_completed key _ _) =
    said_if (same_kind kind Kind.process_instance && k == key) "COMPLETED"
state_said kind k (Event.element_instance_activated key _ _ _ _ _ _ _) =
    said_if (same_kind kind Kind.element_instance && k == key) "ACTIVE"
state_said kind k (Event.element_instance_completed key _ _ _) =
    said_if (same_kind kind Kind.element_instance && k == key) "COMPLETED"
state_said kind k (Event.variable_updated _ _ _ _ _) = none
state_said kind k (Event.job_created key _ _ _ _ _ _ _) =
    said_if (same_kind kind Kind.job && k == key) "CREATED"
state_said kind k (Event.job_activated key _ _) =
    said_if (same_kind kind Kind.job && k == key) "ACTIVATED"
state_said kind k (Event.job_completed key _ _) =
    said_if (same_kind kind Kind.job && k == key) "COMPLETED"
state_said kind k (Event.job_failed key _ _ _ _) =
    said_if (same_kind kind Kind.job && k == key) "FAILED"

abbrev later_or : Option String → Option String → Option String
later_or none earlier = earlier
later_or (some state) earlier = some state

-- The state of the last event about it.
unfoldable pub last_state : Kind → ℕ → List (ℕ × Event) → Option String
last_state kind k [] = none
last_state kind k (d ∷ ds) = later_or (last_state kind k ds) (state_said kind k d.1)

abbrev as_effect : Option String → Effect
as_effect none = none
as_effect (some state) = some (some (Value.text state))

abbrev pub shown : Option String → Option Value → Option Value
shown state old = apply (as_effect state) old

as_effect-later :
    (a b : Option String) → as_effect (later_or a b) ≡ or_earlier (as_effect a) (as_effect b)
as_effect-later none b = refl
as_effect-later (some state) b = refl

as_effect-said :
    (b : Bool) (state : String)
    → (if b then some (some (Value.text state)) else none) ≡ as_effect (said_if b state)
as_effect-said true state = refl
as_effect-said false state = refl

abbrev unchanged : Effect
unchanged = none

no_put :
    (b : Bool)
    → or_earlier (or_earlier unchanged (if b then unchanged else unchanged)) unchanged ≡ unchanged
no_put true = refl
no_put false = refl

table_of-same : (a b : Kind) → (table_of a == table_of b) ≡ same_kind a b
table_of-same Kind.process_instance Kind.process_instance = refl
table_of-same Kind.process_instance Kind.element_instance = refl
table_of-same Kind.process_instance Kind.job = refl
table_of-same Kind.element_instance Kind.process_instance = refl
table_of-same Kind.element_instance Kind.element_instance = refl
table_of-same Kind.element_instance Kind.job = refl
table_of-same Kind.job Kind.process_instance = refl
table_of-same Kind.job Kind.element_instance = refl
table_of-same Kind.job Kind.job = refl

table_of-variable : (a : Kind) → (table_of a == "variable") ≡ false
table_of-variable Kind.process_instance = refl
table_of-variable Kind.element_instance = refl
table_of-variable Kind.job = refl

module _ (env : SyncEnv)
    (injective : (m n : ℕ) → env.show_number m ≡ env.show_number n → m ≡ n) where
  shown_number-same : (m n : ℕ) → (env.show_number m == env.show_number n) ≡ (m == n)
  shown_number-same m n = ground (
    arith,
    eq_iff (env.show_number m) (env.show_number n),
    injective m n,
    ap env.show_number {x = m} {y = n},
  )

  same_place-kinds :
      (a b : Kind) (m n : ℕ)
      → same_place (place_in env (table_of a) m) (place_in env (table_of b) n)
        ≡ (same_kind a b && m == n)
  same_place-kinds a b m n = rw (table_of-same a b, shown_number-same m n) refl

  written_state :
      (a b : Kind) (m n : ℕ) (state : String)
      → (if same_place (place_in env (table_of a) m) (place_in env (table_of b) n)
          then some (some (Value.text state))
          else none)
        ≡ as_effect (said_if (same_kind a b && m == n) state)
  written_state a b m n state =
      rw (same_place-kinds a b m n) (as_effect-said (same_kind a b && m == n) state)

  effects-state :
      (kind : Kind) (k now : ℕ) (e : Event)
      → effects (requests_of env now e) (place_in env (table_of kind) k) (field "state")
        ≡ as_effect (state_said kind k e)
  unfolding requests_of effects assigned state_said lookup
  effects-state kind k now (Event.process_instance_created key _ _ _ _ _) =
      written_state kind Kind.process_instance k key "ACTIVE"
  effects-state kind k now (Event.process_instance_completed key _ _) =
      written_state kind Kind.process_instance k key "COMPLETED"
  effects-state kind k now (Event.element_instance_activated key _ _ _ _ _ _ _) =
      written_state kind Kind.element_instance k key "ACTIVE"
  effects-state kind k now (Event.element_instance_completed key _ _ _) =
      written_state kind Kind.element_instance k key "COMPLETED"
  effects-state kind k now (Event.variable_updated _ _ key _ _) =
      rw (table_of-variable kind)
        (no_put (same_place (place_in env (table_of kind) k) (place_in env "process_instance" key)))
  effects-state kind k now (Event.job_created key _ _ _ _ _ _ _) =
      written_state kind Kind.job k key "CREATED"
  effects-state kind k now (Event.job_activated key _ _) =
      written_state kind Kind.job k key "ACTIVATED"
  effects-state kind k now (Event.job_completed key _ _) =
      written_state kind Kind.job k key "COMPLETED"
  effects-state kind k now (Event.job_failed key _ _ _ _) =
      written_state kind Kind.job k key "FAILED"

  effects-states :
      (kind : Kind) (k : ℕ) (ds : List (ℕ × Event))
      → effects (calls_for env ds) (place_in env (table_of kind) k) (field "state")
        ≡ as_effect (last_state kind k ds)
  unfolding calls_for effects last_state
  effects-states kind k [] = refl
  effects-states kind k (d ∷ ds) =
      effects-append (requests_of env d.0 d.1) (calls_for env ds) (place_in env (table_of kind) k)
        (field "state")
      ∙ rw (effects-states kind k ds, effects-state kind k d.0 d.1) refl
      ∙ sym (as_effect-later (last_state kind k ds) (state_said kind k d.1))

  -- Let different keys have different texts, and let a store that answers every request process a
  -- log without an error. Then the document of each process instance, element instance and job
  -- shows the state that the last event about it gives, or, if no event is about it, what it showed
  -- before.
  pub process_events-shows :
      (es : Elastic) (ds : List (ℕ × Event)) (kind : Kind) (k : ℕ) (s : es.Store)
      → Healthy es
      → (process_events env es ds s).0 ≡ none
      → look
          (field "state")
          (es.read (place_in env (table_of kind) k) (process_events env es ds s).1)
        ≡ shown
            (last_state kind k ds)
            (look (field "state") (es.read (place_in env (table_of kind) k) s))
  process_events-shows es ds kind k s healthy ok =
      let p = place_in env (table_of kind) k in
      delivered-look env es healthy ds p (field "state") s ok
      ∙ ap (λ e. apply e (look (field "state") (es.read p s))) (effects-states kind k ds)
