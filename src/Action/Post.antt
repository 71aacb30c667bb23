-- ===== src/Action/Post.antt =====
-- A block that returned a value did so through each of its calls.
use flow_speckit.Prelude.{◌≡◌, refl, ap}
use flow_speckit.Errors.{Outcome, ok, raised, suspended, cancelled_run, crashed, Exception}
use flow_speckit.Action.{Action, ◌>>=◌, continue}

module _ {ℓ} {S A B : Type ℓ} where
  continue-eq-ok :
      (o : Outcome A) (f : A → Action S B) (s : S) {b : B} {s' : S}
      → continue o f s ≡ (ok b, s')
      → (a : A) × (o ≡ ok a) × (f a s ≡ (ok b, s'))
  continue-eq-ok (ok a) f s h = (a, refl, h)
  continue-eq-ok (raised e) f s h = absurd (cc (ap (λ (t : Outcome B × S). t.0) h))
  continue-eq-ok (suspended r) f s h = absurd (cc (ap (λ (t : Outcome B × S). t.0) h))
  continue-eq-ok (cancelled_run k) f s h = absurd (cc (ap (λ (t : Outcome B × S). t.0) h))
  continue-eq-ok crashed f s h = absurd (cc (ap (λ (t : Outcome B × S). t.0) h))

  pub >>=-eq-ok :
      (m : Action S A) (f : A → Action S B) (s : S) {b : B} {s' : S}
      → (m >>= f) s ≡ (ok b, s')
      → (a : A) × (s1 : S) × (m s ≡ (ok a, s1)) × (f a s1 ≡ (ok b, s'))
  unfolding ◌>>=◌
  >>=-eq-ok m f s h =
      let (a, first, rest) = continue-eq-ok (m s).0 f (m s).1 h in
      (a, (m s).1, (λ i. (first i, (m s).1)), rest)

  -- After a first call that returned, a block is the rest of it.
  pub >>=_ok :
      (m : Action S A) (f : A → Action S B) (s : S) {a : A} {s1 : S}
      → m s ≡ (ok a, s1)
      → (m >>= f) s ≡ f a s1
  unfolding ◌>>=◌
  >>=_ok m f s h = ap (λ (t : Outcome A × S). continue t.0 f t.1) h

  -- After a first call that raised, a block is that exception.
  pub >>=_raised :
      (m : Action S A) (f : A → Action S B) (s : S) {e : Exception} {s1 : S}
      → m s ≡ (raised e, s1)
      → (m >>= f) s ≡ (raised e, s1)
  unfolding ◌>>=◌
  >>=_raised m f s h = ap (λ (t : Outcome A × S). continue t.0 f t.1) h
