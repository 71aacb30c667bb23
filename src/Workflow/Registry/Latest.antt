-- ===== src/Workflow/Registry/Latest.antt =====
-- The latest version of a workflow: no candidate is above it.
use flow_speckit.Prelude.{◌≡◌, refl, true, false, [], ◌∷◌, arith, Text}
use flow_speckit.Workflow.{WorkflowDefinition}
use flow_speckit.Workflow.Registry.{text_lt, version_lt}

pub text_lt_irrefl : (v : Text) → text_lt v v ≡ false
unfolding text_lt
text_lt_irrefl [] = refl
text_lt_irrefl (x ∷ v) = ground (arith, text_lt_irrefl v)

pub text_lt_asymm : (v w : Text) → text_lt v w ≡ true → text_lt w v ≡ false
unfolding text_lt
text_lt_asymm [] [] h = ground arith
text_lt_asymm [] (y ∷ w) h = refl
text_lt_asymm (x ∷ v) [] h = ground arith
text_lt_asymm (x ∷ v) (y ∷ w) h = ground (arith, text_lt_asymm v w)

-- `not (u < v)` and `not (v < w)` give `not (u < w)`: the order of code points is total.
pub text_le_trans : (u v w : Text) → text_lt u v ≡ false → text_lt v w ≡ false → text_lt u w ≡ false
unfolding text_lt
text_le_trans [] [] w h k = k
text_le_trans [] (y ∷ v) w h k = ground arith
text_le_trans (x ∷ u) [] [] h k = refl
text_le_trans (x ∷ u) [] (z ∷ w) h k = ground arith
text_le_trans (x ∷ u) (y ∷ v) [] h k = refl
text_le_trans (x ∷ u) (y ∷ v) (z ∷ w) h k = ground (arith, text_le_trans u v w)

-- `best` is not below `d`.
abbrev IsNotBelow : WorkflowDefinition → WorkflowDefinition → Type 0
IsNotBelow best d = version_lt best.version d.version ≡ false
