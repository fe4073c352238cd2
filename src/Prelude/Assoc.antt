-- ===== src/Prelude/Assoc.antt =====
-- Go's maps with text keys, as association lists: a later write to a key replaces the earlier one.
use flow_go.Prelude.Tests.{◌==◌, string_eq, if◌then◌else◌}
use Prim.Native.String.{String}
use mathlib.Core.Option.{Option, none, some}
use mathlib.Core.List.{List, [], ◌∷◌}

-- `m[key]`, with `none` for a key that is not there.
unfoldable pub lookup {ℓ} : {A : Type ℓ} → String → List (String × A) → Option A
lookup key [] = none
lookup key (entry ∷ entries) = if entry.0 == key then some entry.1 else lookup key entries

-- `m[key] = value`.
unfoldable pub insert {ℓ} : {A : Type ℓ} → String → A → List (String × A) → List (String × A)
insert key value [] = (key, value) ∷ []
insert key value (entry ∷ entries) =
    let rest = insert key value entries in
    if entry.0 == key then (key, value) ∷ entries else entry ∷ rest

-- `delete(m, key)`.
unfoldable pub remove {ℓ} : {A : Type ℓ} → String → List (String × A) → List (String × A)
remove key [] = []
remove key (entry ∷ entries) =
    let rest = remove key entries in if entry.0 == key then rest else entry ∷ rest
