-- ===== src/Prelude/Membership.antt =====
-- Membership in what a statement selects.
use mathlib.Core.Path.{◌≡◌, refl, ap, ◌∙◌, sym}
use mathlib.Core.Logic.{inl, inr}
use mathlib.Core.Bool.{Bool, true}
use mathlib.Core.List.{List, [], ◌∷◌, Memᴰ}
use mathlib.Core.List.Memᴰ
use flow_speckit.Prelude.Tests.{Bool-cases, Bool-disjoint}
use flow_speckit.Prelude.Tables.{select, exists_where}

module _ {A : Type 0} (p : A → Bool) where
  pub Memᴰ-of_select : {x : A} (xs : List A) → Memᴰ x (select p xs) → Memᴰ x xs × (p x ≡ true)
  unfolding select
  Memᴰ-of_select [] m = absurd (Memᴰ.not-nil m)
  Memᴰ-of_select {x} (y ∷ xs) m = elim (Bool-cases (p y)) [
    | inl hit ↦
        let m' : Memᴰ x (y ∷ select p xs) = (rw hit at m) in
        elim (Memᴰ.cases_cons m') [
          | inl e ↦ (Memᴰ.head e, ap p e ∙ hit)
          | inr t ↦ let (u, v) = Memᴰ-of_select xs t in (Memᴰ.tail u, v)
        ]
    | inr miss ↦
        let m' : Memᴰ x (select p xs) = (rw miss at m) in
        let (u, v) = Memᴰ-of_select xs m' in (Memᴰ.tail u, v)
  ]

  pub Memᴰ-select : {x : A} {xs : List A} → Memᴰ x xs → p x ≡ true → Memᴰ x (select p xs)
  unfolding select
  Memᴰ-select (Memᴰ.head e) hit = rw (ap p (sym e) ∙ hit) (Memᴰ.head e)
  Memᴰ-select (Memᴰ.tail {x} m) hit = elim (Bool-cases (p x)) [
    | inl h ↦ rw h (Memᴰ.tail (Memᴰ-select m hit))
    | inr h ↦ rw h (Memᴰ-select m hit)
  ]

  pub Memᴰ-exists : {x : A} {xs : List A} → Memᴰ x xs → p x ≡ true → exists_where p xs ≡ true
  unfolding exists_where
  Memᴰ-exists (Memᴰ.head e) hit = rw (ap p (sym e) ∙ hit) refl
  Memᴰ-exists (Memᴰ.tail {x} m) hit = elim (Bool-cases (p x)) [
    | inl h ↦ rw h refl
    | inr h ↦ rw h (Memᴰ-exists m hit)
  ]

  pub exists-Memᴰ : (xs : List A) → exists_where p xs ≡ true → (x : A) × Memᴰ x xs × (p x ≡ true)
  unfolding exists_where
  exists-Memᴰ [] h = Bool-disjoint h refl
  exists-Memᴰ (y ∷ xs) h = elim (Bool-cases (p y)) [
    | inl hit ↦ (y, Memᴰ.head refl, hit)
    | inr miss ↦ let (x, m, hit) = exists-Memᴰ xs (rw miss at h) in (x, Memᴰ.tail m, hit)
  ]
