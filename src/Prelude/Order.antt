-- ===== src/Prelude/Order.antt =====
-- `ORDER BY key ASC`: a stable insertion sort by a number.
use Prim.Native.Nat.{ℕ, ◌≤◌}
use mathlib.Core.Logic.{inl, inr}
use mathlib.Core.Option.{none, some, some-injective}
use mathlib.Core.Path.{subst, ◌≡◌, refl}
use mathlib.Core.List.{List, [], ◌∷◌}
use native.Mathlib.Omega.{arith}
use flow_speckit.Prelude.Tests.{Bool-cases, Option-cases, leb, if◌then◌else◌}
use flow_speckit.Prelude.Tables.{head?}
use flow_speckit.Prelude.Lists.{All-map, All}

module _ {ℓ} {A : Type ℓ} (key : A → ℕ) where
  insert_by : A → List A → List A
  insert_by x [] = x ∷ []
  insert_by x (y ∷ ys) = if leb (key x) (key y) then x ∷ y ∷ ys else y ∷ insert_by x ys

  unfoldable pub order_by : List A → List A
  unfolding insert_by
  order_by [] = []
  order_by (x ∷ xs) = insert_by x (order_by xs)

  abbrev pub IsAscending : List A → Type 0
  IsAscending [] = Unit
  IsAscending (x ∷ xs) = All (λ y. key x ≤ key y) xs × IsAscending xs

  insert_by-head : (x : A) (xs : List A) → All (λ y. key x ≤ key y) xs → insert_by x xs ≡ x ∷ xs
  unfolding insert_by
  insert_by-head x [] h = refl
  insert_by-head x (y ∷ ys) h = ground arith

  -- Rows that stand in order stay as they stand.
  pub order_by-eq_self : (xs : List A) → IsAscending xs → order_by xs ≡ xs
  unfolding order_by
  order_by-eq_self [] h = refl
  order_by-eq_self (x ∷ xs) h = rw (order_by-eq_self xs h.1) (insert_by-head x xs h.0)

module _ {ℓ} {A : Type ℓ} (key : A → ℕ) where
  head-insert_by :
      (x : A) (ys : List A)
      → head? (insert_by key x ys) ≡ elim (head? ys) [
        | none ↦ some x
        | some y ↦ if leb (key x) (key y) then some x else some y
      ]
  unfolding insert_by
  head-insert_by x [] = refl
  head-insert_by x (y ∷ ys) = ground arith

  pub empty-order_by : (xs : List A) → head? (order_by key xs) ≡ none → xs ≡ []
  unfolding order_by
  empty-order_by [] h = refl
  empty-order_by (x ∷ xs) h = ground (arith, head-insert_by x (order_by key xs))

  -- The first row of the order has the least key.
  pub order_by-least :
      (xs : List A) (q : A) → head? (order_by key xs) ≡ some q → All (λ x. key q ≤ key x) xs
  unfolding order_by
  order_by-least [] q h = tt
  order_by-least (x ∷ xs) q h = elim (Option-cases (head? (order_by key xs))) [
    | inl nothing ↦
        rw (empty-order_by xs nothing) (ground (arith, head-insert_by x (order_by key xs)), tt)
    | inr (y, found) ↦
        let rest = order_by-least xs y found in
        let bound : key q ≤ key y = ground (arith, head-insert_by x (order_by key xs)) in
        (ground (arith, head-insert_by x (order_by key xs)), All-map xs (λ z le. omega arith) rest)
  ]

  All-insert_by {κ} :
      (P : A → Type κ) (x : A) (ys : List A) → P x → All P ys → All P (insert_by key x ys)
  unfolding insert_by
  All-insert_by P x [] hx hy = (hx, tt)
  All-insert_by P x (y ∷ ys) hx hy = elim (Bool-cases (leb (key x) (key y))) [
    | inl le ↦ rw le (hx, hy)
    | inr gt ↦ rw gt (hy.0, All-insert_by P x ys hx hy.1)
  ]

  -- What holds of every row holds of every row of the order.
  pub All-order_by {κ} : (P : A → Type κ) (xs : List A) → All P xs → All P (order_by key xs)
  unfolding order_by
  All-order_by P [] h = tt
  All-order_by P (x ∷ xs) h = All-insert_by P x (order_by key xs) h.0 (All-order_by P xs h.1)

pub All-head {ℓ κ} :
    {A : Type ℓ} (P : A → Type κ) (xs : List A) {q : A} → All P xs → head? xs ≡ some q → P q
All-head P [] h e = absurd (ground arith)
All-head P (x ∷ xs) h e = subst P (some-injective _ _ e) h.0
