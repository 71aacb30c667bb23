-- ===== src/Storage/Writes/Growing.antt =====
-- A table that only `EventLog.append` writes to stays gapless, and no run's history is rewritten.
use flow_speckit.Prelude.{
  ◌≡◌, refl, sym, ◌∙◌, inl, inr, List, [], ◌∷◌, ◌++◌, append-nil, append_assoc, ◌==◌, Bool-cases,
  Text,
}
use flow_speckit.Base.{Uuid, TimerKind, Instant}
use flow_speckit.Storage.{Db, insert_timer}
use flow_speckit.Events.{WorkflowEvent}
use flow_speckit.Storage.Writes.{Writes, untouched, appended, followed, armed, disarmed, Untouched}
use flow_speckit.Storage.Log.Gapless.{IsGapless, list-append, append-IsGapless}
use flow_speckit.Storage.Log.{list, append}
use flow_speckit.Storage.Log.Elsewhere.{list-SameEvents, IsGapless-SameEvents, SameEvents}

SameEvents-Untouched : {a b : Db} → Untouched a b → SameEvents a b
SameEvents-Untouched h = record { events = h.events }

SameEvents-armed :
    {a b : Db} (run_id : Uuid) (kind : TimerKind) (key : Text) (fire_at : Instant)
    → Untouched (insert_timer run_id kind key fire_at a) b
    → SameEvents a b
unfolding insert_timer
SameEvents-armed run_id kind key fire_at h = record { events = h.events }

pub Writes-IsGapless : {a b : Db} → Writes a b → IsGapless a → IsGapless b
Writes-IsGapless (untouched h) g = IsGapless-SameEvents (SameEvents-Untouched h) g
Writes-IsGapless (appended {a} run_id e h) g =
    IsGapless-SameEvents (SameEvents-Untouched h) (append-IsGapless run_id e a g)
Writes-IsGapless (armed run_id kind key fire_at h) g =
    IsGapless-SameEvents (SameEvents-armed run_id kind key fire_at h) g
Writes-IsGapless (disarmed p h) g = IsGapless-SameEvents (record { events = h.events }) g
Writes-IsGapless (followed h k) g = Writes-IsGapless k (Writes-IsGapless h g)

-- The history of a run is the one before, with new events after it.
abbrev pub Extends : List WorkflowEvent → List WorkflowEvent → Type 0
Extends before after = (new : List WorkflowEvent) × (after ≡ before ++ new)

Extends-refl : (before : List WorkflowEvent) → Extends before before
Extends-refl before = ([], sym (append-nil before))

Extends-append :
    (run_id other : Uuid) (e : WorkflowEvent) (db : Db)
    → IsGapless db
    → Extends (list other db) (list other (append run_id e db).0)
Extends-append run_id other e db g = elim (Bool-cases (run_id == other)) [
  | inl same ↦ (e ∷ [], list-append run_id other e db g ∙ rw same refl)
  | inr differs ↦
      ([], list-append run_id other e db g ∙ (rw differs (sym (append-nil (list other db)))))
]

Extends-trans : (a b c : List WorkflowEvent) → Extends a b → Extends b c → Extends a c
Extends-trans a b c (xs, p) (ys, q) = (xs ++ ys, rw (q, p) (append_assoc a xs ys))

Extends-SameEvents :
    {a b : Db} (run_id : Uuid) → SameEvents a b → Extends (list run_id a) (list run_id b)
Extends-SameEvents {a} run_id h = ([], list-SameEvents run_id h ∙ sym (append-nil (list run_id a)))

pub Writes-Extends :
    {a b : Db} (run_id : Uuid) → Writes a b → IsGapless a → Extends (list run_id a) (list run_id b)
Writes-Extends {a} run_id (untouched h) g = Extends-SameEvents run_id (SameEvents-Untouched h)
Writes-Extends run_id (appended {a} other e h) g =
    let (new, p) = Extends-append other run_id e a g in
    (new, list-SameEvents run_id (SameEvents-Untouched h) ∙ p)
Writes-Extends run_id (armed other kind key fire_at h) g =
    Extends-SameEvents run_id (SameEvents-armed other kind key fire_at h)
Writes-Extends run_id (disarmed p h) g = Extends-SameEvents run_id (record { events = h.events })
Writes-Extends run_id (followed h k) g =
    Extends-trans _ _ _ (Writes-Extends run_id h g) (Writes-Extends run_id k (Writes-IsGapless h g))
