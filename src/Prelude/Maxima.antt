-- ===== src/Prelude/Maxima.antt =====
-- Python's `max(xs, key=...)`: the first of the greatest, in an order given by a test.
use mathlib.Core.Path.{◌≡◌}
use mathlib.Core.Logic.{inl, inr}
use mathlib.Core.Bool.{Bool, true, false}
use mathlib.Core.List.{List, [], ◌∷◌}
use flow_speckit.Prelude.Tests.{Bool-cases, if◌then◌else◌}
use flow_speckit.Prelude.Lists.{All}

unfoldable pub max_by {ℓ} : {A : Type ℓ} → (A → A → Bool) → A → List A → A
max_by lt best [] = best
max_by lt best (d ∷ ds) = max_by lt (if lt best d then d else best) ds

-- The laws of a strict order whose complement is transitive.
pub record IsOrder {ℓ} {A : Type ℓ} (lt : A → A → Bool) : Type ℓ where
  pub irrefl : (a : A) → lt a a ≡ false
  pub asymm : (a b : A) → lt a b ≡ true → lt b a ≡ false
  pub trans : (a b c : A) → lt a b ≡ false → lt b c ≡ false → lt a c ≡ false

module _ {ℓ} {A : Type ℓ} {lt : A → A → Bool} (o : IsOrder lt) where
  better-over : (best d z : A) → lt best z ≡ false → lt (if lt best d then d else best) z ≡ false
  better-over best d z h = elim (Bool-cases (lt best d)) [
    | inl above ↦ rw above (o.trans d best z (o.asymm best d above) h)
    | inr below ↦ rw below h
  ]

  better-new : (best d : A) → lt (if lt best d then d else best) d ≡ false
  better-new best d = elim (Bool-cases (lt best d)) [
    | inl above ↦ rw above (o.irrefl d)
    | inr below ↦ rw below below
  ]

  max_by-over :
      (best : A) (ds : List A) (z : A) → lt best z ≡ false → lt (max_by lt best ds) z ≡ false
  unfolding max_by
  max_by-over best [] z h = h
  max_by-over best (d ∷ ds) z h =
      max_by-over (if lt best d then d else best) ds z (better-over best d z h)

  max_by-each : (best : A) (ds : List A) → All (λ d. lt (max_by lt best ds) d ≡ false) ds
  unfolding max_by
  max_by-each best [] = tt
  max_by-each best (d ∷ ds) = (
    max_by-over (if lt best d then d else best) ds d (better-new best d),
    max_by-each (if lt best d then d else best) ds,
  )

  -- The maximum is below none of the elements.
  pub max_by-All :
      (best : A) (ds : List A) → All (λ d. lt (max_by lt best ds) d ≡ false) (best ∷ ds)
  max_by-All best ds = (max_by-over best ds best (o.irrefl best), max_by-each best ds)
