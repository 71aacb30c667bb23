-- ===== src/Prelude/Tables.antt =====
-- A database table as the list of its rows, and the statements that the program issues on it.
use Prim.Native.Nat.{ℕ, suc}
use mathlib.Core.Path.{◌≡◌, refl}
use mathlib.Core.Bool.{Bool, true, false, ◌||◌}
use mathlib.Core.Option.{Option, none, some}
use mathlib.Core.List.{List, [], ◌∷◌, ◌++◌}
use native.Mathlib.Omega.{arith}
use flow_speckit.Prelude.Tests.{if◌then◌else◌, Bool-cases, Bool-disjoint}
use flow_speckit.Prelude.Lists.{All}
use mathlib.Core.Logic.{◌≢◌, inl, inr}

module _ {ℓ} {A : Type ℓ} where
  -- `SELECT … WHERE p`.
  unfoldable pub select : (A → Bool) → List A → List A
  select p [] = []
  select p (x ∷ xs) = if p x then x ∷ select p xs else select p xs

  -- `DELETE … WHERE p`.
  unfoldable pub delete_where : (A → Bool) → List A → List A
  delete_where p [] = []
  delete_where p (x ∷ xs) = if p x then delete_where p xs else x ∷ delete_where p xs

  -- `UPDATE … SET f WHERE p`.
  unfoldable pub update_where : (A → Bool) → (A → A) → List A → List A
  update_where p f [] = []
  update_where p f (x ∷ xs) = (if p x then f x else x) ∷ update_where p f xs

  -- `any(p(x) for x in l)`.
  unfoldable pub exists_where : (A → Bool) → List A → Bool
  exists_where p [] = false
  exists_where p (x ∷ xs) = p x || exists_where p xs

  -- `next((x for x in l if p(x)), None)`.
  unfoldable pub first_where : (A → Bool) → List A → Option A
  first_where p [] = none
  first_where p (x ∷ xs) = if p x then some x else first_where p xs

  -- How many rows `WHERE p` matches.
  unfoldable pub count_where : (A → Bool) → List A → ℕ
  count_where p [] = 0
  count_where p (x ∷ xs) = if p x then suc (count_where p xs) else count_where p xs

  abbrev pub head? : List A → Option A
  head? [] = none
  head? (x ∷ xs) = some x

module _ {ℓ} {A : Type ℓ} (p : A → Bool) where
  pub select-append : (xs ys : List A) → select p (xs ++ ys) ≡ select p xs ++ select p ys
  unfolding select
  select-append [] ys = refl
  select-append (x ∷ xs) ys = ground (arith, select-append xs ys)

  pub exists_where-append :
      (xs ys : List A) → exists_where p (xs ++ ys) ≡ (exists_where p xs || exists_where p ys)
  unfolding exists_where
  exists_where-append [] ys = refl
  exists_where-append (x ∷ xs) ys = ground (arith, exists_where-append xs ys)

  pub first_where-append :
      (xs ys : List A)
      → first_where p (xs ++ ys)
        ≡ elim (first_where p xs) [ none ↦ first_where p ys | some x ↦ some x ]
  unfolding first_where
  first_where-append [] ys = refl
  first_where-append (x ∷ xs) ys = ground (arith, first_where-append xs ys)

  -- A row is found exactly when one matches.
  pub first_where-none : (xs : List A) → exists_where p xs ≡ false → first_where p xs ≡ none
  unfolding first_where exists_where
  first_where-none [] h = refl
  first_where-none (x ∷ xs) h = ground (arith, first_where-none xs)

  pub first_where-matches : (xs : List A) {x : A} → first_where p xs ≡ some x → p x ≡ true
  unfolding first_where
  first_where-matches [] h = ground arith
  first_where-matches (y ∷ xs) {x} h = ground (arith, first_where-matches xs {x = x})

  pub delete_where-gone : (xs : List A) → exists_where p (delete_where p xs) ≡ false
  unfolding exists_where delete_where
  delete_where-gone [] = refl
  delete_where-gone (x ∷ xs) = ground (arith, delete_where-gone xs)

-- An update that keeps what `p` reads changes the row that is found, and not which one is.
pub first_where-update_where {ℓ} :
    {A : Type ℓ} (p q : A → Bool) (f : A → A) (xs : List A)
    → ((x : A) → p (f x) ≡ p x)
    → first_where p (update_where q f xs)
      ≡ elim (first_where p xs) [ none ↦ none | some x ↦ some (if q x then f x else x) ]
unfolding first_where update_where
first_where-update_where p q f [] keep = refl
first_where-update_where p q f (x ∷ xs) keep =
    ground (arith, keep x, first_where-update_where p q f xs keep)

pub All-select {ℓ} : {A : Type ℓ} (p : A → Bool) (xs : List A) → All (λ x. p x ≡ true) (select p xs)
unfolding select
All-select p [] = tt
All-select p (x ∷ xs) = elim (Bool-cases (p x)) [
  | inl hit ↦ rw hit (hit, All-select p xs)
  | inr miss ↦ rw miss (All-select p xs)
]

-- What holds of every selected row holds of every row that matches.
pub All-of_select {ℓ κ} :
    {A : Type ℓ} (P : A → Type κ) (p : A → Bool) (xs : List A)
    → All P (select p xs)
    → All (λ x. p x ≡ true → P x) xs
unfolding select
All-of_select P p [] h = tt
All-of_select P p (x ∷ xs) h = elim (Bool-cases (p x)) [
  | inl hit ↦
      let h' : P x × All P (select p xs) = (rw hit at h) in (λ _. h'.0, All-of_select P p xs h'.1)
  | inr miss ↦ (λ hit. Bool-disjoint hit miss, All-of_select P p xs (rw miss at h))
]

-- An update keeps what each changed and each unchanged row keeps.
pub All-update_where {ℓ κ μ} :
    {A : Type ℓ} (P : A → Type κ) (Q : A → Type μ) (p : A → Bool) (f : A → A) (xs : List A)
    → ((x : A) → p x ≡ true → P x → Q (f x))
    → ((x : A) → p x ≡ false → P x → Q x)
    → All P xs
    → All Q (update_where p f xs)
unfolding update_where
All-update_where P Q p f [] changed same h = tt
All-update_where P Q p f (x ∷ xs) changed same h = elim (Bool-cases (p x)) [
  | inl hit ↦ rw hit (changed x hit h.0, All-update_where P Q p f xs changed same h.1)
  | inr miss ↦ rw miss (same x miss h.0, All-update_where P Q p f xs changed same h.1)
]

pub All-anything {ℓ} : {A : Type ℓ} (xs : List A) → All (λ _. Unit {0}) xs
All-anything [] = tt
All-anything (x ∷ xs) = (tt, All-anything xs)

-- An update of rows that `q` takes leaves the others.
pub delete_where-update_where {ℓ} :
    {A : Type ℓ} (q : A → Bool) (f : A → A) (xs : List A)
    → ((x : A) → q (f x) ≡ q x)
    → delete_where q (update_where q f xs) ≡ delete_where q xs
unfolding delete_where update_where
delete_where-update_where q f [] keep = refl
delete_where-update_where q f (x ∷ xs) keep =
    ground (arith, keep x, delete_where-update_where q f xs keep)

pub All-select_of {ℓ κ} :
    {A : Type ℓ} (P : A → Type κ) (p : A → Bool) (xs : List A) → All P xs → All P (select p xs)
unfolding select
All-select_of P p [] h = tt
All-select_of P p (x ∷ xs) h = elim (Bool-cases (p x)) [
  | inl hit ↦ rw hit (h.0, All-select_of P p xs h.1)
  | inr miss ↦ rw miss (All-select_of P p xs h.1)
]

pub All-not_exists {ℓ} :
    {A : Type ℓ} (p : A → Bool) (xs : List A)
    → exists_where p xs ≡ false
    → All (λ x. p x ≡ false) xs
unfolding exists_where
All-not_exists p [] h = tt
All-not_exists p (x ∷ xs) h = (ground arith, All-not_exists p xs (ground arith))

pub exists_where-update_where {ℓ} :
    {A : Type ℓ} (p q : A → Bool) (f : A → A) (xs : List A)
    → ((x : A) → p x ≡ true → q (f x) ≡ true)
    → count_where p xs ≢ 0
    → exists_where q (update_where p f xs) ≡ true
unfolding exists_where update_where count_where
exists_where-update_where p q f [] hits h = absurd (h refl)
exists_where-update_where p q f (x ∷ xs) hits h = elim (Bool-cases (p x)) [
  | inl hit ↦ rw (hit, hits x hit)
  | inr miss ↦ rw miss (ground (arith, exists_where-update_where p q f xs hits (rw miss at h)))
]

pub select-exists {ℓ} :
    {A : Type ℓ} (p : A → Bool) (xs : List A) → exists_where p xs ≡ true → select p xs ≢ []
unfolding exists_where select
select-exists p [] h = ground arith
select-exists p (x ∷ xs) h = ground (arith, select-exists p xs)

pub All-delete_where {ℓ κ} :
    {A : Type ℓ} (P : A → Type κ) (p : A → Bool) (xs : List A)
    → All P xs
    → All P (delete_where p xs)
unfolding delete_where
All-delete_where P p [] h = tt
All-delete_where P p (x ∷ xs) h = elim (Bool-cases (p x)) [
  | inl hit ↦ rw hit (All-delete_where P p xs h.1)
  | inr miss ↦ rw miss (h.0, All-delete_where P p xs h.1)
]
