-- ===== src/Prelude/Numbering.antt =====
-- Rows that are numbered one after the other, and `COALESCE(max(n), 0)`.
use Prim.Native.Nat.{ℕ, suc, ◌+◌, ◌≤◌, max}
use mathlib.Core.Path.{◌≡◌, refl}
use mathlib.Core.List.{List, [], ◌∷◌, ◌++◌, map}
use native.Mathlib.Omega.{arith}
use flow_speckit.Prelude.Lists.{All, length}
use flow_speckit.Prelude.Order.{IsAscending}

module _ {ℓ} {A : Type ℓ} (number : A → ℕ) where
  unfoldable pub greatest : List A → ℕ
  greatest [] = 0
  greatest (r ∷ rs) = max (number r) (greatest rs)

  -- The numbers are `start`, `start + 1`, ….
  abbrev pub IsNumberedFrom : ℕ → List A → Type 0
  IsNumberedFrom start [] = Unit
  IsNumberedFrom start (r ∷ rs) = (number r ≡ start) × IsNumberedFrom (suc start) rs

  pub IsNumberedFrom-append :
      (start : ℕ) (rs : List A) (r : A)
      → IsNumberedFrom start rs
      → number r ≡ start + length rs
      → IsNumberedFrom start (rs ++ r ∷ [])
  IsNumberedFrom-append start [] r h e = (omega arith, tt)
  IsNumberedFrom-append start (x ∷ rs) r h e =
      (h.0, IsNumberedFrom-append (suc start) rs r h.1 (omega arith))

  pub greatest-IsNumberedFrom :
      (start : ℕ) (rs : List A)
      → IsNumberedFrom (suc start) rs
      → max start (greatest rs) ≡ start + length rs
  unfolding greatest
  greatest-IsNumberedFrom start [] h = omega arith
  greatest-IsNumberedFrom start (r ∷ rs) h =
      omega (arith, h.0, greatest-IsNumberedFrom (suc start) rs h.1)

  above :
      (bound start : ℕ) (rs : List A)
      → bound ≤ start
      → IsNumberedFrom start rs
      → All (λ r. bound ≤ number r) rs
  above bound start [] le h = tt
  above bound start (r ∷ rs) le h =
      (omega (arith, h.0), above bound (suc start) rs (omega arith) h.1)

  pub IsAscending-IsNumberedFrom :
      (start : ℕ) (rs : List A) → IsNumberedFrom start rs → IsAscending number rs
  IsAscending-IsNumberedFrom start [] h = tt
  IsAscending-IsNumberedFrom start (r ∷ rs) h = (
    above (number r) (suc start) rs (omega (arith, h.0)) h.1,
    IsAscending-IsNumberedFrom (suc start) rs h.1,
  )

  -- Whether rows are numbered so depends on their numbers alone.
  pub IsNumberedFrom-map :
      (start : ℕ) (rs ss : List A)
      → map number rs ≡ map number ss
      → IsNumberedFrom start rs
      → IsNumberedFrom start ss
  IsNumberedFrom-map start rs [] e h = tt
  IsNumberedFrom-map start [] (s ∷ ss) e h = absurd (ground arith)
  IsNumberedFrom-map start (r ∷ rs) (s ∷ ss) e h =
      (ground (arith, h.0), IsNumberedFrom-map (suc start) rs ss (ground arith) h.1)

  pub greatest-map : (rs ss : List A) → map number rs ≡ map number ss → greatest rs ≡ greatest ss
  unfolding greatest
  greatest-map [] [] e = refl
  greatest-map [] (s ∷ ss) e = absurd (ground arith)
  greatest-map (r ∷ rs) [] e = absurd (ground arith)
  greatest-map (r ∷ rs) (s ∷ ss) e =
      let rest : greatest rs ≡ greatest ss = greatest-map rs ss (ground arith) in
      let same : number r ≡ number s = ground arith in rw (rest, same) refl
