-- ===== src/Action.antt =====
-- Awaited calls that change a state and end in an `Outcome`. What was written before an exception
-- or a signal stays written, so the state comes back beside each outcome.
pub mod Post
use flow_speckit.Prelude.{}
use flow_speckit.Errors.{
  Exception, SuspendRun, Outcome, ok, raised, suspended, cancelled_run, crashed,
}

abbrev pub Action {ℓ} : Type ℓ → Type ℓ → Type ℓ
Action S A = S → Outcome A × S

module _ {ℓ} {S A : Type ℓ} where
  abbrev pub pure : A → Action S A
  pure a s = (ok a, s)

  abbrev pub raise : Exception → Action S A
  raise e s = (raised e, s)

  abbrev pub suspend : SuspendRun → Action S A
  suspend r s = (suspended r, s)

  abbrev pub crash : Action S A
  crash s = (crashed, s)

abbrev pub modify {ℓ} : {S : Type ℓ} → (S → S) → Action S (Unit {ℓ})
modify f s = (ok tt, f s)

module _ {ℓ} {S A B : Type ℓ} where
  abbrev pub continue : Outcome A → (A → Action S B) → Action S B
  continue (ok a) f s = f a s
  continue (raised e) f s = (raised e, s)
  continue (suspended r) f s = (suspended r, s)
  continue (cancelled_run k) f s = (cancelled_run k, s)
  continue crashed f s = (crashed, s)

  infixl 10 ◌>>=◌ ◌>>◌
  unfoldable pub ◌>>=◌ : Action S A → (A → Action S B) → Action S B
  ◌>>=◌ m f s = let (r, s') = m s in continue r f s'

  abbrev pub ◌>>◌ : Action S A → Action S B → Action S B
  m >> n = m >>= λ _. n
