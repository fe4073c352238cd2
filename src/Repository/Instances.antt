-- ===== src/Repository/Instances.antt =====
-- The tables of process instances, element instances, variables and message subscriptions of
-- gorm_repository.go. An update changes the row with the given primary key, and no other.
use flow_go.Prelude.{ℕ, List, [], ◌∷◌, ◌++◌, Option, none, some, ◌==◌, nat_eq, if◌then◌else◌}
use flow_go.Model.{
  InstanceState, ProcessInstance, ElementState, ElementInstance, Variable, MessageSubscription,
  SubscriptionState,
}

unfoldable pub create_process_instance :
    ProcessInstance → List ProcessInstance → List ProcessInstance
create_process_instance p rows = rows ++ p ∷ []

unfoldable pub get_process_instance : ℕ → List ProcessInstance → Option ProcessInstance
get_process_instance key [] = none
get_process_instance key (p ∷ ps) = if p.key == key then some p else get_process_instance key ps

unfoldable pub update_process_instance :
    ℕ → InstanceState → ℕ → List ProcessInstance → List ProcessInstance
update_process_instance key state end_time [] = []
update_process_instance key state end_time (p ∷ ps) =
    let rest = update_process_instance key state end_time ps in
    if p.key == key then record p { state = state; end_time = end_time } ∷ ps else p ∷ rest

unfoldable pub create_element_instance :
    ElementInstance → List ElementInstance → List ElementInstance
create_element_instance e rows = rows ++ e ∷ []

unfoldable pub get_element_instance : ℕ → List ElementInstance → Option ElementInstance
get_element_instance key [] = none
get_element_instance key (e ∷ es) = if e.key == key then some e else get_element_instance key es

unfoldable pub update_element_instance :
    ℕ → ElementState → ℕ → List ElementInstance → List ElementInstance
update_element_instance key state end_time [] = []
update_element_instance key state end_time (e ∷ es) =
    let rest = update_element_instance key state end_time es in
    if e.key == key then record e { state = state; end_time = end_time } ∷ es else e ∷ rest

-- An insert that updates the row on a conflict of the primary key, `scope_key`.
unfoldable pub create_variable : Variable → List Variable → List Variable
create_variable v [] = v ∷ []
create_variable v (row ∷ rows) =
    let rest = create_variable v rows in
    if row.scope_key == v.scope_key
    then record row {
      process_instance_key = v.process_instance_key;
      name = v.name;
      value = v.value;
      updated_at = v.updated_at;
    }
      ∷ rows
    else row ∷ rest

unfoldable pub create_message_subscription :
    MessageSubscription → List MessageSubscription → List MessageSubscription
create_message_subscription sub rows = rows ++ sub ∷ []

unfoldable pub update_message_subscription :
    ℕ → SubscriptionState → List MessageSubscription → List MessageSubscription
update_message_subscription key state [] = []
update_message_subscription key state (sub ∷ subs) =
    let rest = update_message_subscription key state subs in
    if sub.key == key then record sub { state = state } ∷ subs else sub ∷ rest
