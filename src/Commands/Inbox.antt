-- ===== src/Commands/Inbox.antt =====
-- The inbox of open gates against what a resolution looks for.
use flow_speckit.Prelude.{
  ◌≡◌, refl, sym, ap, ◌∙◌, inl, inr, Bool, false, none, some, List, [], ◌∷◌, map, arith,
  if◌then◌else◌, Bool-cases, All, Text, text_eq, text_eq_iff, Dict, dict_put, dict_pop,
}
use flow_speckit.Events.{GateOpened, WorkflowEvent, gate_opened, gate_resolved}
use flow_speckit.Context.{fill}
use flow_speckit.Gates.{open_event, open_gate, last_value}
use flow_speckit.Commands.{fold_event, fold_open_gates}
use flow_speckit.Engine.Execute.{last_where}

-- The entries of a dict whose keys pass a test.
select_keys {ℓ} : {V : Type ℓ} → (Text → Bool) → Dict V → Dict V
select_keys p [] = []
select_keys p ((k, v) ∷ d) = let rest = select_keys p d in if p k then (k, v) ∷ rest else rest

module _ {ℓ} {V : Type ℓ} (p : Text → Bool) where
  select_keys-put :
      (k : Text) (v : V) (d : Dict V)
      → select_keys p (dict_put k v d)
        ≡ (if p k then dict_put k v (select_keys p d) else select_keys p d)
  unfolding dict_put select_keys
  select_keys-put k v [] = ground arith
  select_keys-put k v ((j, w) ∷ d) = elim (Bool-cases (text_eq j k)) [
    | inl same ↦ let e : j ≡ k = ground (arith, text_eq_iff j k) in ground (arith, ap p e)
    | inr other ↦ ground (arith, select_keys-put k v d)
  ]

  -- A key that fails the test is not among those that pass it.
  pop-select_keys :
      (k : Text) (d : Dict V) → p k ≡ false → dict_pop k (select_keys p d) ≡ select_keys p d
  unfolding dict_pop select_keys
  pop-select_keys k [] fails = refl
  pop-select_keys k ((j, w) ∷ d) fails = elim (Bool-cases (text_eq j k)) [
    | inl same ↦
        let e : j ≡ k = ground (arith, text_eq_iff j k) in
        ground (arith, ap p e, pop-select_keys k d fails)
    | inr other ↦ ground (arith, pop-select_keys k d fails)
  ]

  select_keys-pop :
      (k : Text) (d : Dict V) → select_keys p (dict_pop k d) ≡ dict_pop k (select_keys p d)
  unfolding dict_pop select_keys
  select_keys-pop k [] = refl
  select_keys-pop k ((j, w) ∷ d) = elim (Bool-cases (text_eq j k)) [
    | inl same ↦
        let e : j ≡ k = ground (arith, text_eq_iff j k) in
        elim (Bool-cases (p k)) [
          | inl passes ↦ ground (arith, ap p e)
          | inr fails ↦ ground (arith, ap p e, pop-select_keys k d fails)
        ]
    | inr other ↦ ground (arith, select_keys-pop k d)
  ]

-- Every step of the log opens gates of one key.
abbrev pub IsKeyed : (Text → Text) → WorkflowEvent → Type 0
IsKeyed key_of (gate_opened e) = e.gate_key ≡ key_of e.step_key
IsKeyed key_of _ = Unit {0}

module _ (key_of : Text → Text) (gate_key : Text) where
  abbrev is_of_key : Text → Bool
  is_of_key step_key = text_eq (key_of step_key) gate_key

  fold-open_event :
      (d : Dict GateOpened) (e : WorkflowEvent)
      → IsKeyed key_of e
      → open_event gate_key (select_keys is_of_key d) e ≡ select_keys is_of_key (fold_event d e)
  unfolding open_event fold_event
  fold-open_event d (gate_opened e) keyed =
      ap
        (λ g.
          if text_eq g gate_key
          then dict_put e.step_key e (select_keys is_of_key d)
          else select_keys is_of_key d)
        keyed
      ∙ sym (select_keys-put is_of_key e.step_key e d)
  fold-open_event d (gate_resolved e) keyed = sym (select_keys-pop is_of_key e.step_key d)
  fold-open_event d e keyed = refl

  fill-open_event :
      (d : Dict GateOpened) (events : List WorkflowEvent)
      → All (IsKeyed key_of) events
      → fill (open_event gate_key) (select_keys is_of_key d) events
        ≡ select_keys is_of_key (fill fold_event d events)
  unfolding fill
  fill-open_event d [] keyed = refl
  fill-open_event d (e ∷ events) keyed =
      ap (λ x. fill (open_event gate_key) x events) (fold-open_event d e keyed.0)
      ∙ fill-open_event (fold_event d e) events keyed.1

  last_value-cons :
      (k : Text) (v : GateOpened) (d : Dict GateOpened)
      → last_value ((k, v) ∷ d) ≡ elim (last_value d) [ none ↦ some v | some y ↦ some y ]
  last_value-cons k v [] = refl
  last_value-cons k v ((j, w) ∷ d) = ground (arith, last_value-cons j w d)

  last_value-select_keys :
      (d : Dict GateOpened)
      → All (λ entry. entry.1.gate_key ≡ key_of entry.0) d
      → last_value (select_keys is_of_key d)
        ≡ last_where (λ g. text_eq g.gate_key gate_key) (map (λ entry. entry.1) d)
  unfolding select_keys last_where
  last_value-select_keys [] keyed = refl
  last_value-select_keys ((j, v) ∷ d) keyed = ground (
    arith,
    keyed.0,
    last_value-cons j v (select_keys is_of_key d),
    last_value-select_keys d keyed.1,
  )

module _ (key_of : Text → Text) where
  abbrev IsKeyedEntry : Text × GateOpened → Type 0
  IsKeyedEntry entry = entry.1.gate_key ≡ key_of entry.0

  put-IsKeyedEntry :
      (e : GateOpened) (d : Dict GateOpened)
      → e.gate_key ≡ key_of e.step_key
      → All IsKeyedEntry d
      → All IsKeyedEntry (dict_put e.step_key e d)
  unfolding dict_put
  put-IsKeyedEntry e [] keyed h = (keyed, tt)
  put-IsKeyedEntry e ((j, w) ∷ d) keyed h = elim (Bool-cases (text_eq j e.step_key)) [
    | inl same ↦
        let equal : j ≡ e.step_key = ground (arith, text_eq_iff j e.step_key) in
        rw same (keyed ∙ ap key_of (sym equal), h.1)
    | inr other ↦ rw other (h.0, put-IsKeyedEntry e d keyed h.1)
  ]

  pop-IsKeyedEntry :
      (k : Text) (d : Dict GateOpened) → All IsKeyedEntry d → All IsKeyedEntry (dict_pop k d)
  unfolding dict_pop
  pop-IsKeyedEntry k [] h = tt
  pop-IsKeyedEntry k ((j, w) ∷ d) h = elim (Bool-cases (text_eq j k)) [
    | inl same ↦ rw same h.1
    | inr other ↦ rw other (h.0, pop-IsKeyedEntry k d h.1)
  ]

  fold_event-IsKeyedEntry :
      (d : Dict GateOpened) (e : WorkflowEvent)
      → IsKeyed key_of e
      → All IsKeyedEntry d
      → All IsKeyedEntry (fold_event d e)
  unfolding fold_event
  fold_event-IsKeyedEntry d (gate_opened e) keyed h = put-IsKeyedEntry e d keyed h
  fold_event-IsKeyedEntry d (gate_resolved e) keyed h = pop-IsKeyedEntry e.step_key d h
  fold_event-IsKeyedEntry d e keyed h = h

  fill-IsKeyedEntry :
      (d : Dict GateOpened) (events : List WorkflowEvent)
      → All (IsKeyed key_of) events
      → All IsKeyedEntry d
      → All IsKeyedEntry (fill fold_event d events)
  unfolding fill
  fill-IsKeyedEntry d [] keyed h = h
  fill-IsKeyedEntry d (e ∷ events) keyed h =
      fill-IsKeyedEntry (fold_event d e) events keyed.1 (fold_event-IsKeyedEntry d e keyed.0 h)

-- In a log whose steps open gates of one key each, the gate that a resolution finds under a key
-- is the last of that key in the inbox, and it finds none exactly if the inbox has none.
pub open_gate-fold_open_gates :
    (key_of : Text → Text) (gate_key : Text) (events : List WorkflowEvent)
    → All (IsKeyed key_of) events
    → open_gate events gate_key
      ≡ last_where (λ g. text_eq g.gate_key gate_key) (fold_open_gates events)
unfolding open_gate fold_open_gates select_keys
open_gate-fold_open_gates key_of gate_key events keyed =
    ap last_value (fill-open_event key_of gate_key [] events keyed)
    ∙ last_value-select_keys key_of gate_key (fill fold_event [] events)
        (fill-IsKeyedEntry key_of [] events keyed tt)
