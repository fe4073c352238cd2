-- ===== src/Navigation/Scopes.antt =====
-- Where the variables of a navigation are kept (persistVariables of engine.go).
use Prim.Native.String.{◌++◌}
use flow_go.Prelude.{ℕ, suc, String, ◌≡◌, refl, List, [], ◌∷◌, some, arith, nat_eq, length}
use flow_go.Model.{Variable}
use flow_go.Model.Value.{Value}
use flow_go.Repository.Instances.{create_variable}
use flow_go.Navigation.Variables.{marshalled, new_variable, persist_variable}
use flow_go.Navigation.World.{World, Env, pure, ◌>>=◌, ◌>>◌, asks, draw, store, emit}

-- A second write under a key changes the row of the first.
length-create_variable :
    (u v : Variable) (rows : List Variable)
    → u.scope_key ≡ v.scope_key
    → length (create_variable v (create_variable u rows)) ≡ length (create_variable u rows)
unfolding create_variable
length-create_variable u v [] h = ground arith
length-create_variable u v (row ∷ rows) h = ground (arith, length-create_variable u v rows)

module _ (env : Env) where
  abbrev pub row_of : String → String → ℕ → World → Variable
  row_of name json n w =
      new_variable name (env.deterministic_key (env.show_number w.instance_.key ++ "_" ++ name))
        json w.instance_.key (env.now n) (env.now (suc n))

  -- Persisting a variable whose value marshals writes one row, under a key that the instance and
  -- the name determine: the scope has no part in it. So a second value of the same name, for any
  -- other scope of the instance, adds no row.
  pub persist_variable-one_row :
      (name json json' : String) (value value' : Value) (scope scope' : ℕ) (w : World)
      → env.marshal value ≡ some json
      → env.marshal value' ≡ some json'
      → ((persist_variable env scope (name, value) w).1.session.db.variables
          ≡ create_variable (row_of name json w.draws w) w.session.db.variables)
        × (length
              ((persist_variable env scope (name, value)
                  >> persist_variable env scope' (name, value'))
                w).1.session.db.variables
            ≡ length (persist_variable env scope (name, value) w).1.session.db.variables)
  unfolding persist_variable marshalled pure ◌>>=◌ ◌>>◌ asks draw store emit
  persist_variable-one_row name json json' value value' scope scope' w h h' = (
    rw h,
    rw (h, h')
        (length-create_variable (row_of name json w.draws w)
          (row_of name json' (suc (suc w.draws)) w) w.session.db.variables refl),
  )
