-- ===== src/Replay/Joining.antt =====
-- Sleeps and children: what they leave behind when they return a value.
use flow_speckit.Prelude.{
  ℕ, ◌≡◌, refl, sym, ap, ◌∙◌, subst, ◌≢◌, inl, inr, Option, none, some, List, [], ◌∷◌, arith,
  Bool-cases, Option-cases, Text, text_eq, Dict, dict_get, dict_put, get-put,
}
use flow_speckit.Json.{Json, null}
use flow_speckit.Base.{TimerKind, is_terminal, RunStatus}
use flow_speckit.Errors.{Outcome, ok}
use flow_speckit.Events.{WorkflowEvent, StepCompleted, step_completed}
use flow_speckit.Storage.{RunRow, find_run, timer_exists}
use flow_speckit.Storage.Log.{list}
use flow_speckit.Action.{Action, pure, ◌>>=◌, ◌>>◌}
use flow_speckit.Context.{Env, Pass, memo_event, fill}
use flow_speckit.Context.Keys.{require_live}
use flow_speckit.Context.Steps.{append_event, raise_if_cancelled, memoize}
use flow_speckit.Context.Waits.{start_sleep, run_sleep}
use flow_speckit.Context.Children.{
  completion_of, settle_terminal, settle_child, join_child, run_child,
}
use flow_speckit.Replay.Tracking.{PassTracks, Tracks-completed, Tracks}
use flow_speckit.Replay.Steady.{
  Committed, Never, Never-bind, Never-suspend, Never-raise, Commits, Commits-of_Never, Commits-bind,
  Commits-if,
}
use flow_speckit.Replay.Checkpoints.{Steady-raise_if_cancelled}
use flow_speckit.Replay.Answers.{MemoAnswer, MemoAnswer-memo_or}
use flow_speckit.Storage.Recording.{record_event}

memo_event-keeps :
    (k : Text) (d : Dict Json) (e : WorkflowEvent)
    → dict_get k d ≢ none
    → dict_get k (memo_event d e) ≢ none
unfolding memo_event
memo_event-keeps k d (step_completed e) h = rw get-put (elim (Bool-cases (text_eq e.step_key k)) [
  | inl same ↦ rw same (λ p. cc p)
  | inr other ↦ rw other h
])
memo_event-keeps k d _ h = h

fill-keeps :
    (k : Text) (d : Dict Json) (es : List WorkflowEvent)
    → dict_get k d ≢ none
    → dict_get k (fill memo_event d es) ≢ none
unfolding fill
fill-keeps k d [] h = h
fill-keeps k d (e ∷ es) h = fill-keeps k (memo_event d e) es (memo_event-keeps k d e h)

-- A step that the log has completed is in the memo of the log.
completion_memoized :
    (k : Text) (d : Dict Json) (es : List WorkflowEvent) (c : StepCompleted)
    → completion_of k es ≡ some c
    → dict_get k (fill memo_event d es) ≢ none
unfolding completion_of fill memo_event
completion_memoized k d [] c h = absurd (cc h)
completion_memoized k d (step_completed e ∷ es) c h = elim (Bool-cases (text_eq e.step_key k)) [
  | inl same ↦ fill-keeps k (memo_event d (step_completed e)) es (rw get-put (rw same (λ p. cc p)))
  | inr other ↦ completion_memoized k (memo_event d (step_completed e)) es c (ground arith)
]
completion_memoized k d (e ∷ es) c h = completion_memoized k (memo_event d e) es c h

-- The end of a child step whose child completed.
settle_completed_state :
    (key : Text) (e : StepCompleted) (s t : Pass) (a : Json)
    → e.step_key ≡ key
    → (do append_event (step_completed e); memoize key e.result; pure e.result) s ≡ (ok a, t)
    → Committed key a s t
unfolding ◌>>=◌ append_event memoize
settle_completed_state key e s t a own h =
    let value_same : e.result ≡ a = ground arith in
    let state : record s {
      db = record_event s.ctx.run_id (step_completed e) s.db;
      ctx = record s.ctx { memoized = dict_put key e.result s.ctx.memoized };
    }
        ≡ t =
      ap (λ (p : Outcome Json × Pass). p.1) h in
    subst (λ v. Committed key v s t) value_same
      (subst (Committed key e.result s) state (record {
        keys = record { run_id = refl; ordinals = refl; requested = refl; sealed = refl };
        memoized = refl;
        resolved = refl;
        tracks = λ t.
            subst
              (λ k.
                Tracks s.ctx.run_id (dict_put k e.result s.ctx.memoized) s.ctx.gates_resolved
                  (record_event s.ctx.run_id (step_completed e) s.db))
              own (Tracks-completed s.ctx.run_id s.db t e);
      }))

Commits-on_status :
    (key : Text) (status : RunStatus) (m n : Action Pass Json)
    → Commits key m
    → Commits key n
    → Commits key (elim status [ RunStatus.completed ↦ m | _ ↦ n ])
Commits-on_status key RunStatus.completed m n hm hn = hm
Commits-on_status key _ m n hm hn = hn

Commits-complete_child :
    (key : Text) (e : StepCompleted)
    → e.step_key ≡ key
    → Commits key (do append_event (step_completed e); memoize key e.result; pure e.result)
Commits-complete_child key e own = record {
  at = λ s t a _ _ h. settle_completed_state key e s t a own h;
}

-- A terminal child whose step the log has not completed.
Commits-settle_terminal :
    (key : Text) (events : List WorkflowEvent) (child : RunRow)
    → completion_of key events ≡ none
    → Commits key (settle_terminal events key child)
unfolding settle_terminal
Commits-settle_terminal key events child unsettled =
    rw (unsettled, settle_terminal)
      (Commits-on_status key child.status _ _ (Commits-complete_child key _ refl)
        (Commits-of_Never key (Never-bind _ _ λ _. Never-raise _)))

Commits-settle_child : (key : Text) (child : RunRow) → Commits key (settle_child key child)
unfolding settle_child
Commits-settle_child key child = record {
  at = λ s t a miss tr h. elim (Option-cases (completion_of key (list s.ctx.run_id s.db))) [
    | inl unsettled ↦
        (Commits-settle_terminal key (list s.ctx.run_id s.db) child unsettled).at s t a miss tr h
    | inr (c, found) ↦
        absurd (
          completion_memoized key [] (list s.ctx.run_id s.db) c found
            (sym (tr.memoized key) ∙ miss))
  ];
}

-- A sleep that returned: its step is in the memo, and nothing changed.
pub record SleepAnswer (key : Text) (v : Json) (s t : Pass) : Type 0 where
  pub same : s ≡ t
  pub nothing : v ≡ null
  pub result : Json
  pub found : dict_get key s.ctx.memoized ≡ some result

Never-start_sleep : (key : Text) (duration : ℕ) → Never (start_sleep key duration)
unfolding start_sleep
Never-start_sleep key duration = record {
  at = λ s t a h. elim (Bool-cases (timer_exists s.ctx.run_id key TimerKind.sleep s.db)) [
    | inl there ↦ (Never-suspend _).at s t a (rw there at h)
    | inr absent ↦
        (Never-bind _ _ λ _. Never-bind _ _ λ _. Never-suspend _).at s t a (rw absent at h)
  ];
}

run_sleep_miss :
    (key : Text) (duration : ℕ) (s : Pass)
    → dict_get key s.ctx.memoized ≡ none
    → run_sleep key duration s
      ≡ (do require_live key; raise_if_cancelled key; start_sleep key duration) s
unfolding run_sleep ◌>>=◌
run_sleep_miss key duration s miss = rw (miss, run_sleep)

pub SleepAnswer-run_sleep :
    (key : Text) (duration : ℕ) (s t : Pass) (v : Json)
    → run_sleep key duration s ≡ (ok v, t)
    → SleepAnswer key v s t
SleepAnswer-run_sleep key duration s t v h = elim (Option-cases (dict_get key s.ctx.memoized)) [
  | inl miss ↦ absurd (
      (Never-bind (require_live key) (λ _. raise_if_cancelled key >>= λ _. start_sleep key duration)
          λ _. Never-bind _ _ λ _. Never-start_sleep key duration).at
        s t v (sym (run_sleep_miss key duration s miss) ∙ h))
  | inr (w, hit) ↦
      let e : run_sleep key duration s ≡ (ok null, s) = (unfold run_sleep in rw (hit, run_sleep)) in
      let same = sym e ∙ h in
      record {
        same = ap (λ (p : Outcome Json × Pass). p.1) same;
        nothing = ground arith;
        result = w;
        found = hit;
      }
]

module _ (env : Env) where
  Never-join_absent :
      (key name : Text) (version : Option Text) (input : Json)
      → Never (join_child env none key name version input)
  unfolding join_child
  Never-join_absent key name version input = record {
    at = λ s. (Never-bind _ _ λ _. Never-bind _ _ λ _. Never-suspend _).at s;
  }

  Commits-join_child :
      (row : Option RunRow) (key name : Text) (version : Option Text) (input : Json)
      → Commits key (join_child env row key name version input)
  unfolding join_child
  Commits-join_child none key name version input =
      Commits-of_Never key (Never-join_absent key name version input)
  Commits-join_child (some child) key name version input = record {
    at = λ s.
        (Commits-if key (is_terminal child.status) (settle_child key child) _
            (Commits-settle_child key child) (Commits-of_Never key (Never-suspend _))).at
          s;
  }

  pub MemoAnswer-run_child :
      (key name : Text) (version : Option Text) (input : Json) (s t : Pass) (v : Json)
      → PassTracks s
      → run_child env key name version input s ≡ (ok v, t)
      → MemoAnswer key v s t
  unfolding run_child
  MemoAnswer-run_child key name version input s t v tr h =
      MemoAnswer-memo_or env key _ s t v
        (Commits-bind key _ _ (Steady-raise_if_cancelled key) λ _. record {
          at = λ s.
              (Commits-join_child (find_run (env.child_run_id s.ctx.run_id key) s.db) key name
                  version input).at
                s;
        })
        tr h
