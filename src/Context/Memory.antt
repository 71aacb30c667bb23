-- ===== src/Context/Memory.antt =====
-- What `WorkflowContext.__init__` (workflows/context.py) remembers of a step: an entry that one
-- event of the log made stays, whatever events follow.
use flow_speckit.Events.{step_completed, gate_resolved, WorkflowEvent, GateResolved}
use flow_speckit.Prelude.{
  ◌≡◌, refl, inl, inr, Bool, true, some, List, [], ◌∷◌, arith, Bool-cases, exists_where, Text,
  text_eq, Dict, dict_get, get-put,
}
use flow_speckit.Json.{Json}
use flow_speckit.Context.{resolved_event, memo_event, fill}
use flow_speckit.Engine.Execute.{completes, resolves}

module _ {V : Type 0} (step : Dict V → WorkflowEvent → Dict V) (k : Text)
    (keeps : (e : WorkflowEvent) (d : Dict V) (v : V)
      → dict_get k d ≡ some v
      → (w : V) × (dict_get k (step d e) ≡ some w)) where
  fill-keeps :
      (events : List WorkflowEvent) (d : Dict V) (v : V)
      → dict_get k d ≡ some v
      → (w : V) × (dict_get k (fill step d events) ≡ some w)
  unfolding fill
  fill-keeps [] d v h = (v, h)
  fill-keeps (e ∷ es) d v h = let (w, h') = keeps e d v h in fill-keeps es (step d e) w h'

  fill-makes :
      (p : WorkflowEvent → Bool)
      → ((e : WorkflowEvent) (d : Dict V) → p e ≡ true → (w : V) × (dict_get k (step d e) ≡ some w))
      → (events : List WorkflowEvent) (d : Dict V) → exists_where p events ≡ true
      → (w : V) × (dict_get k (fill step d events) ≡ some w)
  unfolding fill exists_where
  fill-makes p makes [] d h = absurd (ground (arith, h))
  fill-makes p makes (e ∷ es) d h = elim (Bool-cases (p e)) [
    | inl now ↦ let (w, found) = makes e d now in fill-keeps es (step d e) w found
    | inr later ↦ fill-makes p makes es (step d e) (rw later at h)
  ]

memo_event-keeps :
    (k : Text) (e : WorkflowEvent) (d : Dict Json) (v : Json)
    → dict_get k d ≡ some v
    → (w : Json) × (dict_get k (memo_event d e) ≡ some w)
unfolding memo_event
memo_event-keeps k (step_completed e) d v h = elim (Bool-cases (text_eq e.step_key k)) [
  | inl same ↦ (e.result, rw get-put (rw same refl))
  | inr differs ↦ (v, rw get-put (rw differs h))
]
memo_event-keeps k _ d v h = (v, h)

memo_event-completes :
    (k : Text) (e : WorkflowEvent) (d : Dict Json)
    → completes k e ≡ true
    → (w : Json) × (dict_get k (memo_event d e) ≡ some w)
unfolding memo_event
memo_event-completes k (step_completed e) d h = (e.result, rw get-put (rw h refl))
memo_event-completes k _ d h = absurd (ground (arith, h))

resolved_event-keeps :
    (k : Text) (e : WorkflowEvent) (d : Dict GateResolved) (v : GateResolved)
    → dict_get k d ≡ some v
    → (w : GateResolved) × (dict_get k (resolved_event d e) ≡ some w)
unfolding resolved_event
resolved_event-keeps k (gate_resolved e) d v h = elim (Bool-cases (text_eq e.step_key k)) [
  | inl same ↦ (e, rw get-put (rw same refl))
  | inr differs ↦ (v, rw get-put (rw differs h))
]
resolved_event-keeps k _ d v h = (v, h)

resolved_event-resolves :
    (k : Text) (e : WorkflowEvent) (d : Dict GateResolved)
    → resolves k e ≡ true
    → (w : GateResolved) × (dict_get k (resolved_event d e) ≡ some w)
unfolding resolved_event
resolved_event-resolves k (gate_resolved e) d h = (e, rw get-put (rw h refl))
resolved_event-resolves k _ d h = absurd (ground (arith, h))

-- A step that the log completes is memoized, and a gate that it resolves is known to be resolved.
pub fill-completes :
    (k : Text) (events : List WorkflowEvent) (d : Dict Json)
    → exists_where (completes k) events ≡ true
    → (w : Json) × (dict_get k (fill memo_event d events) ≡ some w)
fill-completes k =
    fill-makes memo_event k (memo_event-keeps k) (completes k) (memo_event-completes k)

pub fill-resolves :
    (k : Text) (events : List WorkflowEvent) (d : Dict GateResolved)
    → exists_where (resolves k) events ≡ true
    → (w : GateResolved) × (dict_get k (fill resolved_event d events) ≡ some w)
fill-resolves k =
    fill-makes resolved_event k (resolved_event-keeps k) (resolves k) (resolved_event-resolves k)
