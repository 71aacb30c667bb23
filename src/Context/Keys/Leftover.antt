-- ===== src/Context/Keys/Leftover.antt =====
-- `assert_replay_consistent` passes exactly where every memoized step was asked for.
use flow_speckit.Prelude.{
  ◌≡◌, refl, ◌↔◌, inl, inr, true, some, List, [], ◌∷◌, arith, Bool-cases, Text, text_eq,
  text_eq_refl, text_eq_iff, Dict, dict_get, contains,
}
use flow_speckit.Context.Keys.{leftover, Json}

-- Every memoized step was asked for.
abbrev pub AllRequested : Dict Json → List Text → Type 0
AllRequested d requested =
    (k : Text) (v : Json) → dict_get k d ≡ some v → contains k requested ≡ true

AllRequested-of_leftover :
    (d : Dict Json) (requested : List Text) → leftover d requested ≡ [] → AllRequested d requested
unfolding leftover dict_get
AllRequested-of_leftover [] requested h k v e = ground arith
AllRequested-of_leftover ((j, w) ∷ d) requested h k v e = elim (Bool-cases (contains j requested)) [
  | inl asked ↦ elim (Bool-cases (text_eq j k)) [
    | inl same ↦ rw (← (text_eq_iff j k).0 same) asked
    | inr differs ↦ AllRequested-of_leftover d requested (ground arith) k v (ground arith)
  ]
  | inr missed ↦ ground arith
]

leftover_of_AllRequested :
    (d : Dict Json) (requested : List Text) → AllRequested d requested → leftover d requested ≡ []
unfolding leftover dict_get
leftover_of_AllRequested [] requested h = refl
leftover_of_AllRequested ((j, w) ∷ d) requested h = rw (h j w (rw (text_eq_refl j) refl)) (
    leftover_of_AllRequested d requested (λ k v e. elim (Bool-cases (text_eq j k)) [
      | inl same ↦ h k w (rw same refl)
      | inr differs ↦ h k v (rw differs e)
    ]))

pub leftover_iff :
    (d : Dict Json) (requested : List Text) → (leftover d requested ≡ []) ↔ AllRequested d requested
leftover_iff d requested =
    (AllRequested-of_leftover d requested, leftover_of_AllRequested d requested)
