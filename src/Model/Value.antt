-- ===== src/Model/Value.antt =====
-- What JSON decodes to in Go, the values of variables and of a step's properties (`any`). A float64
-- is its part before the point and a number that stands for the rest.
use flow_go.Prelude.{ℕ, String, Bool, List, Option, none, some}
use flow_go.Prelude.Int.{ℤ}
use flow_go.Prelude.Assoc.{lookup}

mutual
  pub data Value : Type 0 where
    nil : Value
    boolean : Bool → Value
    int : ℤ → Value
    float : (whole : ℤ) (rest : ℕ) → Value
    text : String → Value
    list : Items → Value
    object : Fields → Value

  pub data Items : Type 0 where
    no_items : Items
    add_item : Value → Items → Items

  pub data Fields : Type 0 where
    no_fields : Fields
    add_field : String → Value → Fields → Fields

-- A map from names to values: a process instance's context, or a step's properties.
abbrev pub Variables : Type 0
Variables = List (String × Value)

-- `v.(string)`, with the empty text for any other value.
abbrev pub text_or_empty : Value → String
text_or_empty (text s) = s
text_or_empty _ = ""

abbrev pub text_of : Option Value → String
text_of none = ""
text_of (some v) = text_or_empty v

-- `s, _ := m[key].(string)`.
unfoldable pub text_at : String → Variables → String
unfolding lookup
text_at key m = text_of (lookup key m)

-- `v.(type)` on the two numbers that a loop counter may be.
abbrev pub number_of : Value → ℤ → ℤ
number_of (int n) default = n
number_of (float n rest) default = n
number_of _ default = default

abbrev pub items_of : Items → List Value
items_of no_items = List.[]
items_of (add_item v vs) = List.◌∷◌ v (items_of vs)

-- `v.([]any)`, with no items for any other value.
abbrev pub collection_of : Option Value → List Value
collection_of (some (list vs)) = items_of vs
collection_of _ = List.[]
