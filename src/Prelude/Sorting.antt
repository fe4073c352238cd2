-- ===== src/Prelude/Sorting.antt =====
-- SQL's `ORDER BY column ASC`, as a stable insertion sort on a numeric column. (The database may
-- order ties differently; no theorem depends on their order.)
use Prim.Native.Nat.{ℕ}
use mathlib.Core.Bool.{Bool, true, false}
use mathlib.Core.List.{List, [], ◌∷◌, map}
use mathlib.Core.Path.{◌≡◌, refl}
use native.Mathlib.Omega.{arith}
use flow_go.Prelude.Tests.{leb, if◌then◌else◌}
use flow_go.Prelude.Lists.{All, filter}

module _ {ℓ} {A : Type ℓ} (column : A → ℕ) where
  pub insert_by : A → List A → List A
  insert_by x [] = x ∷ []
  insert_by x (y ∷ ys) =
      let rest = insert_by x ys in if leb (column x) (column y) then x ∷ y ∷ ys else y ∷ rest

  unfoldable pub order_by : List A → List A
  unfolding insert_by
  order_by [] = []
  order_by (x ∷ xs) = insert_by x (order_by xs)

module _ {ℓ κ} {A : Type ℓ} (column : A → ℕ) (P : A → Type κ) where
  All-insert_by : (x : A) (ys : List A) → P x → All P ys → All P (insert_by column x ys)
  unfolding insert_by
  All-insert_by x [] p h = (p, tt)
  All-insert_by x (y ∷ ys) p (q, h) = go (leb (column x) (column y)) (All-insert_by x ys p h)
    where
      go :
          (b : Bool)
          → All P (insert_by column x ys)
          → All P (if b then x ∷ y ∷ ys else y ∷ insert_by column x ys)
      go true rest = (p, (q, h))
      go false rest = (q, rest)

  pub All-order_by : (xs : List A) → All P xs → All P (order_by column xs)
  unfolding order_by
  All-order_by [] h = tt
  All-order_by (x ∷ xs) (p, h) = All-insert_by x (order_by column xs) p (All-order_by xs h)

-- Sorting and filtering commute with a change of the elements that neither looks at.
module _ {ℓ} {A : Type ℓ} (f : A → A) where
  insert_by-map :
      (column : A → ℕ)
      → ((x : A) → column (f x) ≡ column x)
      → (x : A) (ys : List A) → insert_by column (f x) (map f ys) ≡ map f (insert_by column x ys)
  unfolding insert_by
  insert_by-map column same x [] = refl
  insert_by-map column same x (y ∷ ys) =
      ground (arith, same x, same y, insert_by-map column same x ys)

  pub order_by-map :
      (column : A → ℕ)
      → ((x : A) → column (f x) ≡ column x)
      → (xs : List A) → order_by column (map f xs) ≡ map f (order_by column xs)
  unfolding order_by
  order_by-map column same [] = refl
  order_by-map column same (x ∷ xs) =
      cc (order_by-map column same xs, insert_by-map column same x (order_by column xs))

  pub filter-map :
      (p : A → Bool)
      → ((x : A) → p (f x) ≡ p x)
      → (xs : List A) → filter p (map f xs) ≡ map f (filter p xs)
  unfolding filter
  filter-map p same [] = refl
  filter-map p same (x ∷ xs) = ground (arith, same x, filter-map p same xs)
