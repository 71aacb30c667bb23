-- ===== src/Prelude/Dicts.antt =====
-- Python's `dict` with text keys: entries in the order in which their keys were first set.
use mathlib.Core.Path.{◌≡◌, refl}
use mathlib.Core.Bool.{Bool, true, false}
use mathlib.Core.Option.{Option, none, some}
use mathlib.Core.List.{List, [], ◌∷◌}
use native.Mathlib.Omega.{arith}
use flow_speckit.Prelude.Tests.{if◌then◌else◌}
use flow_speckit.Prelude.Texts.{Text, text_eq, text_eq_iff}

abbrev pub Dict {ℓ} : Type ℓ → Type ℓ
Dict V = List (Text × V)

module _ {ℓ} {V : Type ℓ} where
  -- `d.get(k)`.
  unfoldable pub dict_get : Text → Dict V → Option V
  dict_get k [] = none
  dict_get k ((j, v) ∷ d) = if text_eq j k then some v else dict_get k d

  -- `d[k] = v`: a key that is there keeps its place.
  unfoldable pub dict_put : Text → V → Dict V → Dict V
  dict_put k v [] = (k, v) ∷ []
  dict_put k v ((j, w) ∷ d) = if text_eq j k then (j, v) ∷ d else (j, w) ∷ dict_put k v d

  -- `d.pop(k, None)`, of a dict that holds each key once.
  unfoldable pub dict_pop : Text → Dict V → Dict V
  dict_pop k [] = []
  dict_pop k ((j, v) ∷ d) = if text_eq j k then d else (j, v) ∷ dict_pop k d

  pub get-put :
      (k j : Text) (v : V) (d : Dict V)
      → dict_get j (dict_put k v d) ≡ (if text_eq k j then some v else dict_get j d)
  unfolding dict_get dict_put
  get-put k j v [] = refl
  get-put k j v ((i, w) ∷ d) =
      ground (arith, text_eq_iff k j, text_eq_iff i k, text_eq_iff i j, get-put k j v d)

-- `k in s`, of a set of texts.
unfoldable pub contains : Text → List Text → Bool
contains k [] = false
contains k (j ∷ js) = if text_eq j k then true else contains k js
