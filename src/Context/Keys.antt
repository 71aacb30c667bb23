-- ===== src/Context/Keys.antt =====
-- Step keys: `_allocate`, `_require_live` and `assert_replay_consistent`.
pub mod Leftover
use flow_speckit.Prelude.{
  ℕ, ◌+◌, Bool, true, false, ◌&&◌, ◌||◌, some, List, [], ◌∷◌, ◌++◌, ltb, ◌==◌, if◌then◌else◌, Text,
  decimal, Dict, dict_put, contains,
}
use flow_speckit.Json.{Json}
use flow_speckit.Errors.{
  non_determinism, requested_twice, log_complete, never_requested, Outcome, ok, raised,
}
use flow_speckit.Action.{Action}
use flow_speckit.Context.{Context, Pass, count_of}

-- `label if ordinal == 1 else f"{label}#{ordinal}"`.
unfoldable pub step_key_of : Text → ℕ → Text
step_key_of label ordinal = if ordinal == 1 then label else label ++ b'#' ∷ decimal ordinal

allocate_in : Text → ℕ → Text → Context → Outcome Text × Context
allocate_in label ordinal key c =
    let c' = record c { ordinals = dict_put label ordinal c.ordinals } in
    if contains key c.requested
    then (raised (non_determinism key requested_twice), c')
    else (ok key, record c' { requested = key ∷ c.requested; last_step_key = some key })

unfoldable pub allocate : Text → Action Context Text
unfolding step_key_of allocate_in
allocate label c =
    let ordinal = count_of label c.ordinals + 1 in
    allocate_in label ordinal (step_key_of label ordinal) c

unfoldable pub require_live : Text → Action Pass (Unit {0})
require_live key s =
    if s.ctx.sealed then (raised (non_determinism key log_complete), s) else (ok tt, s)

-- `set(self._memoized) - self._requested`.
unfoldable pub leftover : Dict Json → List Text → List Text
leftover [] requested = []
leftover ((k, v) ∷ d) requested =
    if contains k requested then leftover d requested else k ∷ leftover d requested

-- `sorted(leftover)[0]`.
unfoldable pub text_before : Text → Text → Bool
text_before [] _ = true
text_before (x ∷ xs) [] = false
text_before (x ∷ xs) (y ∷ ys) = ltb x y || ((x == y) && text_before xs ys)

unfoldable pub least_text : Text → List Text → Text
least_text best [] = best
least_text best (k ∷ ks) = least_text (if text_before best k then best else k) ks

abbrev pub check_leftover : List Text → Outcome (Unit {0})
check_leftover [] = ok tt
check_leftover (k ∷ ks) = raised (non_determinism (least_text k ks) (never_requested (k ∷ ks)))

unfoldable pub assert_replay_consistent : Action Pass (Unit {0})
unfolding leftover
assert_replay_consistent s = (check_leftover (leftover s.ctx.memoized s.ctx.requested), s)
