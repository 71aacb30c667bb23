-- ===== src/Replay/Tracking.antt =====
-- The context's memo and the log agree, and how one step may change them.
use flow_speckit.Prelude.{
  ◌≡◌, refl, sym, ap, ◌∙◌, Bool, true, false, List, [], ◌∷◌, ◌++◌, arith, ==_refl, Text, Dict,
  dict_get, dict_put, get-put,
}
use flow_speckit.Json.{Json}
use flow_speckit.Base.{Uuid}
use flow_speckit.Events.{WorkflowEvent, StepCompleted, GateResolved, step_completed, gate_resolved}
use flow_speckit.Storage.{Db}
use flow_speckit.Storage.Log.{list}
use flow_speckit.Storage.Log.Gapless.{IsGapless}
use flow_speckit.Storage.Recording.{record_event}
use flow_speckit.Storage.Recording.Sync.{record_event-IsGapless, list-record_event}
use flow_speckit.Context.{Pass, memo_event, resolved_event, fill}

pub fill-append {ℓ} :
    {D : Type ℓ} (step : D → WorkflowEvent → D) (d : D) (xs : List WorkflowEvent)
    (e : WorkflowEvent)
    → fill step d (xs ++ e ∷ []) ≡ step (fill step d xs) e
unfolding fill
fill-append step d [] e = refl
fill-append step d (x ∷ xs) e = fill-append step (step d x) xs e

-- The memo and the resolutions are, key by key, those of the log.
pub record Tracks (run_id : Uuid) (memo : Dict Json) (gates : Dict GateResolved) (db : Db)
    : Type 0 where
  pub gapless : IsGapless db
  pub memoized : (k : Text) → dict_get k memo ≡ dict_get k (fill memo_event [] (list run_id db))
  pub resolved :
      (k : Text) → dict_get k gates ≡ dict_get k (fill resolved_event [] (list run_id db))

abbrev pub PassTracks : Pass → Type 0
PassTracks s = Tracks s.ctx.run_id s.ctx.memoized s.ctx.gates_resolved s.db

-- Events that no dict of results is built from.
abbrev pub is_plain : WorkflowEvent → Bool
is_plain (step_completed _) = false
is_plain (gate_resolved _) = false
is_plain _ = true

fill-record_event {ℓ} :
    {D : Type ℓ} (step : D → WorkflowEvent → D) (d : D) (run_id : Uuid) (e : WorkflowEvent)
    (db : Db)
    → IsGapless db
    → fill step d (list run_id (record_event run_id e db)) ≡ step (fill step d (list run_id db)) e
fill-record_event step d run_id e db g =
    rw (list-record_event run_id run_id e db g)
      (rw (==_refl run_id) (fill-append step d (list run_id db) e))

plain-memo : (d : Dict Json) (e : WorkflowEvent) → is_plain e ≡ true → memo_event d e ≡ d
unfolding memo_event
plain-memo d e h = ground arith

plain-resolved :
    (d : Dict GateResolved) (e : WorkflowEvent) → is_plain e ≡ true → resolved_event d e ≡ d
unfolding resolved_event
plain-resolved d e h = ground arith

module _ (run_id : Uuid) {memo : Dict Json} {gates : Dict GateResolved} (db : Db)
    (t : Tracks run_id memo gates db) where
  pub Tracks-plain :
      (e : WorkflowEvent) → is_plain e ≡ true → Tracks run_id memo gates (record_event run_id e db)
  Tracks-plain e plain = record {
    gapless = record_event-IsGapless run_id e t.gapless;
    memoized = λ k.
        t.memoized k
        ∙ ap (dict_get k) (
            sym (plain-memo _ e plain)
            ∙ sym (fill-record_event memo_event [] run_id e db t.gapless));
    resolved = λ k.
        t.resolved k
        ∙ ap (dict_get k) (
            sym (plain-resolved _ e plain)
            ∙ sym (fill-record_event resolved_event [] run_id e db t.gapless));
  }

  pub Tracks-completed :
      (e : StepCompleted)
      → Tracks run_id
          (dict_put e.step_key e.result memo)
          gates
          (record_event run_id (step_completed e) db)
  unfolding memo_event resolved_event
  Tracks-completed e = record {
    gapless = record_event-IsGapless run_id (step_completed e) t.gapless;
    memoized = λ k.
        rw (fill-record_event memo_event [] run_id (step_completed e) db t.gapless)
          (rw (get-put, get-put) (rw (t.memoized k)));
    resolved = λ k.
        rw (fill-record_event resolved_event [] run_id (step_completed e) db t.gapless)
          (t.resolved k);
  }

  pub Tracks-resolved :
      (e : GateResolved)
      → Tracks run_id memo (dict_put e.step_key e gates) (record_event run_id (gate_resolved e) db)
  unfolding memo_event resolved_event
  Tracks-resolved e = record {
    gapless = record_event-IsGapless run_id (gate_resolved e) t.gapless;
    memoized = λ k.
        rw (fill-record_event memo_event [] run_id (gate_resolved e) db t.gapless) (t.memoized k);
    resolved = λ k.
        rw (fill-record_event resolved_event [] run_id (gate_resolved e) db t.gapless)
          (rw (get-put, get-put) (rw (t.resolved k)));
  }
